-- ===== src/Mail/Escape.antt =====
-- src/mail/mail.service.ts: `escapeHtml`.
use logistics_dispatch.Common.{
  Bool, Bool-cases, CodePoints, [], ap, arith, codes, if◌then◌else◌, inl, inr, refl, ℕ, ◌++◌, ◌==◌,
  ◌||◌, ◌∙◌, ◌∷◌, ◌≡◌,
}
use mathlib.Core.List.{append_assoc}

abbrev pub quotation_mark : ℕ
quotation_mark = 34

abbrev pub apostrophe : ℕ
apostrophe = 39

-- `value.replace(/c/g, by)` for one character `c`.
unfoldable pub replace : ℕ → CodePoints → CodePoints → CodePoints
replace c by [] = []
replace c by (x ∷ xs) = let rest = replace c by xs in if x == c then by ++ rest else x ∷ rest

unfoldable pub escape_html : CodePoints → CodePoints
unfolding replace
escape_html value = replace apostrophe (codes "&#39;") (
    replace quotation_mark (codes "&quot;") (
      replace b'>' (codes "&gt;")
        (replace b'<' (codes "&lt;") (replace b'&' (codes "&amp;") value))))

-- The characters that end a text or an attribute in HTML.
abbrev pub is_markup : ℕ → Bool
is_markup c = c == b'<' || c == b'>' || c == quotation_mark || c == apostrophe

-- The entity of one character, where it has one.
abbrev pub entity : ℕ → CodePoints
entity c =
    if c == b'&'
    then codes "&amp;"
    else if c == b'<'
    then codes "&lt;"
    else if c == b'>'
    then codes "&gt;"
    else if c == quotation_mark
    then codes "&quot;"
    else if c == apostrophe
    then codes "&#39;"
    else c ∷ []

-- The text with each character replaced by its entity, in one pass.
abbrev pub escaped : CodePoints → CodePoints
escaped [] = []
escaped (c ∷ cs) = entity c ++ escaped cs

replace-append :
    (c : ℕ) (by s t : CodePoints) → replace c by (s ++ t) ≡ replace c by s ++ replace c by t
unfolding replace
replace-append c by [] t = refl
replace-append c by (x ∷ s) t = elim (Bool-cases (x == c)) [
  | inl hit ↦ simp (hit, replace-append c by s t, append_assoc)
  | inr miss ↦ simp (miss, replace-append c by s t)
]

escape_html-append : (s t : CodePoints) → escape_html (s ++ t) ≡ escape_html s ++ escape_html t
unfolding escape_html
escape_html-append s t = simp replace-append

escape_html-char : (c : ℕ) → escape_html (c ∷ []) ≡ entity c
unfolding escape_html
escape_html-char c = ground arith

-- The five replacements one after another are one pass, since the ampersand comes first.
pub escape_html-escaped : (value : CodePoints) → escape_html value ≡ escaped value
unfolding escape_html
escape_html-escaped [] = refl
escape_html-escaped (c ∷ cs) =
    escape_html-append (c ∷ []) cs
    ∙ ap (λ (l : CodePoints). l ++ escape_html cs) (escape_html-char c)
    ∙ ap (λ (l : CodePoints). entity c ++ l) (escape_html-escaped cs)
