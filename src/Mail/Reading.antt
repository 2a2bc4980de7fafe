-- ===== src/Mail/Reading.antt =====
-- What a browser reads in the HTML of a mail: the name as it was given, and no markup that is not the
-- template's (src/mail/mail.service.ts).
use logistics_dispatch.Common.{
  Bool, CodePoints, List, Option, [], ap, arith, codes, if◌then◌else◌, length, none, refl, select,
  some, suc, zero, ℕ, ◌++◌, ◌==◌, ◌∙◌, ◌∷◌, ◌≡◌,
}
use logistics_dispatch.Mail.Escape.{
  apostrophe, entity, escape_html-escaped, escaped, is_markup, quotation_mark,
}
use logistics_dispatch.Mail.Html.{Template, html_of}

-- The text after a prefix.
abbrev strip : CodePoints → CodePoints → Option CodePoints
strip [] s = some s
strip (c ∷ p) [] = none
strip (c ∷ p) (x ∷ s) = let rest = strip p s in if c == x then rest else none

-- The five entities, with the characters that they stand for.
abbrev entities : List (CodePoints × ℕ)
entities =
    (codes "&amp;", b'&')
    ∷ (codes "&lt;", b'<')
    ∷ (codes "&gt;", b'>')
    ∷ (codes "&quot;", quotation_mark)
    ∷ (codes "&#39;", apostrophe)
    ∷ []

abbrev read_entity : List (CodePoints × ℕ) → CodePoints → Option (ℕ × CodePoints)
read_entity [] s = none
read_entity ((name, c) ∷ table) s =
    let later = read_entity table s in
    elim (strip name s) [ none ↦ later | some rest ↦ some (c, rest) ]

-- The characters that a text stands for, at most so many of them.
abbrev pub read_text : ℕ → CodePoints → CodePoints
read_text zero s = []
read_text (suc n) [] = []
read_text (suc n) (x ∷ s) = elim (read_entity entities (x ∷ s)) [
  | none ↦ x ∷ read_text n s
  | some (c, rest) ↦ c ∷ read_text n rest
]

read_text-entity :
    (n c : ℕ) (s : CodePoints) → read_text (suc n) (entity c ++ s) ≡ c ∷ read_text n s
read_text-entity n c s = ground arith

append_assoc : (xs ys zs : CodePoints) → (xs ++ ys) ++ zs ≡ xs ++ (ys ++ zs)
append_assoc [] ys zs = refl
append_assoc (x ∷ xs) ys zs = ap (λ (l : CodePoints). x ∷ l) (append_assoc xs ys zs)

read_text-escaped :
    (value rest : CodePoints) → read_text (length value) (escaped value ++ rest) ≡ value
read_text-escaped [] rest = refl
read_text-escaped (c ∷ cs) rest =
    ap (read_text (suc (length cs))) (append_assoc (entity c) (escaped cs) rest)
    ∙ (read_text-entity (length cs) c (escaped cs ++ rest)
        ∙ ap (λ (l : CodePoints). c ∷ l) (read_text-escaped cs rest))

-- The text without so many of its first characters.
abbrev pub drop : ℕ → CodePoints → CodePoints
drop zero s = s
drop (suc n) [] = []
drop (suc n) (x ∷ s) = drop n s

drop-append : (xs ys : CodePoints) → drop (length xs) (xs ++ ys) ≡ ys
drop-append [] ys = refl
drop-append (x ∷ xs) ys = drop-append xs ys

select-append :
    {A : Type 0} (test : A → Bool) (xs ys : List A)
    → select test (xs ++ ys) ≡ select test xs ++ select test ys
unfolding select
select-append test [] ys = refl
select-append test (x ∷ xs) ys = ground (arith, select-append test xs ys)

entity-plain : (c : ℕ) → select is_markup (entity c) ≡ []
unfolding select
entity-plain c = ground arith

escaped-plain : (value : CodePoints) → select is_markup (escaped value) ≡ []
unfolding select
escaped-plain [] = refl
escaped-plain (c ∷ cs) =
    select-append is_markup (entity c) (escaped cs) ∙ cc (entity-plain c, escaped-plain cs)

-- Whatever the name of the user: a browser that replaces entities reads the name, and nothing before
-- it, in the mail after the template's greeting, and the mail's markup characters, in their order, are
-- those of the mail with no name.
pub html_of-name :
    (t : Template) (name url : CodePoints)
    → (read_text (length name) (drop (length t.html_start) (html_of t name url)) ≡ name)
      × (select is_markup (html_of t name url) ≡ select is_markup (html_of t [] url))
unfolding html_of
html_of-name t name url = (
  rw (drop-append t.html_start _, escape_html-escaped) (read_text-escaped name _),
  simp (select-append, escape_html-escaped, escaped-plain),
)
