-- ===== src/Mail/Html.antt =====
-- The HTML of the mails of src/mail/mail.service.ts.
use logistics_dispatch.Common.{CodePoints, codes, ◌++◌}
use logistics_dispatch.Mail.Escape.{escape_html}

-- The pieces of a page between the name and the three places of the link.
pub record Template : Type 0 where
  pub html_start : CodePoints
  pub html_button : CodePoints
  pub html_label : CodePoints
  pub html_link : CodePoints
  pub html_end : CodePoints

-- The template literal.
unfoldable pub html_of : Template → CodePoints → CodePoints → CodePoints
unfolding escape_html
html_of t name url =
    t.html_start
    ++ (escape_html name
        ++ (t.html_button
            ++ (url ++ (t.html_label ++ (url ++ (t.html_link ++ (url ++ t.html_end)))))))

abbrev pub verification_template : Template
verification_template = record {
  html_start =
      codes "\n"
      ++ (codes
            "      <div style=\"font-family: Arial, sans-serif; line-height: 1.5; color: #111827;\">\n"
          ++ (codes "        <p>Hi "));
  html_button =
      codes ",</p>\n"
      ++ (codes "        <p>Please verify your email by clicking the button below:</p>\n"
          ++ (codes "        <p>\n" ++ (codes "          <a\n" ++ (codes "            href=\""))));
  html_label =
      codes "\"\n"
      ++ (codes
            "            style=\"display: inline-block; background: #111827; color: #ffffff; padding: 10px 16px; border-radius: 8px; text-decoration: none;\"\n"
          ++ (codes "          >\n"
              ++ (codes "            Verify Email\n"
                  ++ (codes "          </a>\n"
                      ++ (codes "        </p>\n"
                          ++ (codes "        <p>If the button does not work, use this link:</p>\n"
                              ++ (codes "        <p><a href=\"")))))));
  html_link = codes "\">";
  html_end =
      codes "</a></p>\n"
      ++ (codes "        <p>If you did not create this account, you can ignore this email.</p>\n"
          ++ (codes "      </div>\n" ++ (codes "    ")));
}

abbrev pub reset_template : Template
reset_template = record {
  html_start =
      codes "\n"
      ++ (codes
            "      <div style=\"font-family: Arial, sans-serif; line-height: 1.5; color: #111827;\">\n"
          ++ (codes "        <p>Hi "));
  html_button =
      codes ",</p>\n"
      ++ (codes
            "        <p>You requested a password reset. Click the button below to reset your password:</p>\n"
          ++ (codes "        <p>\n" ++ (codes "          <a\n" ++ (codes "            href=\""))));
  html_label =
      codes "\"\n"
      ++ (codes
            "            style=\"display: inline-block; background: #111827; color: #ffffff; padding: 10px 16px; border-radius: 8px; text-decoration: none;\"\n"
          ++ (codes "          >\n"
              ++ (codes "            Reset Password\n"
                  ++ (codes "          </a>\n"
                      ++ (codes "        </p>\n"
                          ++ (codes "        <p>If the button does not work, use this link:</p>\n"
                              ++ (codes "        <p><a href=\"")))))));
  html_link = codes "\">";
  html_end =
      codes "</a></p>\n"
      ++ (codes "        <p>This link will expire in 10 minutes.</p>\n"
          ++ (codes
                "        <p>If you did not request a password reset, you can ignore this email.</p>\n"
              ++ (codes "      </div>\n" ++ (codes "    "))));
}
