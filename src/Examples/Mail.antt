-- ===== src/Examples/Mail.antt =====
-- The theorem on the mails, on a name that holds markup.
use logistics_dispatch.Common.{CodePoints, [], codes, length, refl, select, ◌≡◌}
use logistics_dispatch.Mail.Escape.{escape_html, is_markup}
use logistics_dispatch.Mail.Html.{html_of, verification_template}
use logistics_dispatch.Mail.Reading.{drop, html_of-name, read_text}

abbrev sly_name : CodePoints
sly_name = codes "<b>Eve & Co</b>"

html_of-name_example :
    (read_text (length sly_name) (
        drop
          (length verification_template.html_start)
          (html_of verification_template sly_name (codes "x")))
      ≡ sly_name)
    × (select is_markup (html_of verification_template sly_name (codes "x"))
        ≡ select is_markup (html_of verification_template [] (codes "x")))
html_of-name_example = html_of-name verification_template sly_name (codes "x")

sly_escaped : escape_html sly_name ≡ codes "&lt;b&gt;Eve &amp; Co&lt;/b&gt;"
unfolding escape_html
sly_escaped = refl
