-- ===== src/Mail/Service.antt =====
-- src/mail/mail.service.ts, and the links that `sendVerificationEmail` and `sendPasswordResetEmail` of
-- src/auth/services/auth.service.ts put in the mails. Whether the mailer delivers is an argument.
use logistics_dispatch.Common.{
  Bool, CodePoints, List, [], codes, false, if◌then◌else◌, true, ◌++◌, ◌∷◌,
}
use logistics_dispatch.Mail.Html.{html_of, reset_template, verification_template}

-- What `sendMail` takes.
pub record Message : Type 0 where
  pub to : CodePoints
  pub subject : CodePoints
  pub html : CodePoints

-- The mails that the mailer took, the last one first.
abbrev pub deliver : Bool → Message → List Message → Bool × List Message
deliver taken m sent = if taken then (true, m ∷ sent) else (false, sent)

unfoldable pub send_email_verification_email :
    Bool → CodePoints → CodePoints → CodePoints → List Message → Bool × List Message
unfolding html_of
send_email_verification_email taken to name url sent =
    deliver taken
      (record {
        to = to;
        subject = codes "Verify your email";
        html = html_of verification_template name url;
      })
      sent

unfoldable pub send_password_reset_email :
    Bool → CodePoints → CodePoints → CodePoints → List Message → Bool × List Message
unfolding html_of
send_password_reset_email taken to name url sent =
    deliver taken
      (record {
        to = to;
        subject = codes "Reset your password";
        html = html_of reset_template name url;
      })
      sent

-- `configService.get('APP_BASE_URL') || 'http://localhost:3000'`
abbrev pub app_base_url : CodePoints → CodePoints
app_base_url [] = codes "http://localhost:3000"
app_base_url (c ∷ cs) = c ∷ cs

-- `sendVerificationEmail`
unfoldable pub send_verification_email :
    CodePoints → Bool → CodePoints → CodePoints → CodePoints → List Message → Bool × List Message
unfolding send_email_verification_email
send_verification_email base taken email name token sent =
    send_email_verification_email taken email name
      (app_base_url base ++ (codes "/auth/verify-email?token=" ++ token)) sent

-- `sendPasswordResetEmail`
unfoldable pub send_reset_email :
    CodePoints → Bool → CodePoints → CodePoints → CodePoints → List Message → Bool × List Message
unfolding send_password_reset_email
send_reset_email base taken email name token sent =
    send_password_reset_email taken email name
      (app_base_url base ++ (codes "/auth/reset-password?token=" ++ token)) sent
