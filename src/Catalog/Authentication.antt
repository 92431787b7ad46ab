-- ===== src/Catalog/Authentication.antt =====
-- The entries of the group `authentication` in `ENDPOINTS`, playground-ui/src/features/workbench/catalog.ts.
use dotnet_web_api_startpack.Prelude.{lit, some, [], ◌∷◌, true}
use dotnet_web_api_startpack.Json.{str, obj, end, field}
use dotnet_web_api_startpack.Types.{
  EndpointDefinition, EndpointGroup, AuthRequirement, get, post, social,
}
use dotnet_web_api_startpack.Constants.{demo}
use dotnet_web_api_startpack.Catalog.Entry.{endpoint, copy, no_options}

abbrev pub auth_register : EndpointDefinition
auth_register =
    endpoint (lit "auth-register") post (lit "/api/v1/auth/register")
      (copy "Register an account" "Creates an account and sends a verification email to Mailpit."
        "Konto registrieren" "Erstellt ein Konto und sendet eine Bestätigungsmail an Mailpit."
        "Yeni hesap kaydı" "Hesabı oluşturur ve Mailpit'e doğrulama e-postası yollar.")
      EndpointGroup.authentication AuthRequirement.public
      (record no_options {
        body = some (
            obj (
              field (lit "email") (str (lit "new-user@example.test")) (
                field (lit "password") (str (lit "V4lid!River-Stone-Cobalt-47"))
                  (field (lit "displayName") (str (lit "New User")) end))));
      })

abbrev pub auth_login : EndpointDefinition
auth_login =
    endpoint (lit "auth-login") post (lit "/api/v1/auth/login")
      (copy "Sign in with email and password"
        "Starts a bearer or cookie session; returns a ticket when MFA is enabled."
        "Mit E-Mail und Passwort anmelden"
        "Startet eine Bearer- oder Cookie-Sitzung; bei MFA wird ein Ticket geliefert."
        "E-posta ve parola ile giriş"
        "Bearer/body ya da cookie taşımasıyla yeni oturum açar; MFA etkinse ticket döndürür.")
      EndpointGroup.authentication AuthRequirement.public
      (record no_options {
        body = some (
            obj (
              field (lit "email") (str demo.user.email)
                (field (lit "password") (str demo.user.password) end)));
      })

abbrev pub auth_login_mfa : EndpointDefinition
auth_login_mfa =
    endpoint (lit "auth-login-mfa") post (lit "/api/v1/auth/login/mfa")
      (copy "Complete MFA sign-in" "Completes the password ticket with TOTP or a recovery code."
        "MFA-Anmeldung abschließen" "Schließt das Passwort-Ticket mit TOTP oder Recovery-Code ab."
        "MFA girişini tamamla"
        "Parola adımından gelen ticket'ı TOTP veya recovery code ile tamamlar.")
      EndpointGroup.authentication AuthRequirement.public
      (record no_options {
        body = some (
            obj (
              field (lit "mfaTicket") (str (lit "{{mfaTicket}}"))
                (field (lit "code") (str (lit "{{totpCode}}")) end)));
      })

abbrev pub auth_refresh : EndpointDefinition
auth_refresh =
    endpoint (lit "auth-refresh") post (lit "/api/v1/auth/refresh")
      (copy "Refresh the token pair"
        "Rotates the refresh token atomically and revokes the session on reuse."
        "Token-Paar erneuern"
        "Rotiert das Refresh-Token atomar und widerruft die Sitzung bei Wiederverwendung."
        "Token çiftini yenile"
        "Refresh token'ı atomik olarak döndürür; eski token'ın tekrar kullanımı oturumu iptal eder.")
      EndpointGroup.authentication AuthRequirement.public
      (record no_options {
        body = some (obj (field (lit "refreshToken") (str (lit "{{refreshToken}}")) end));
      })

abbrev pub auth_logout : EndpointDefinition
auth_logout =
    endpoint (lit "auth-logout") post (lit "/api/v1/auth/logout")
      (copy "End the active session"
        "Revokes the current session and clears authentication cookies." "Aktive Sitzung beenden"
        "Widerruft die aktuelle Sitzung und löscht Auth-Cookies." "Aktif oturumu kapat"
        "Geçerli oturumu iptal eder ve varsa auth cookie'lerini temizler.")
      EndpointGroup.authentication AuthRequirement.auth (record no_options { destructive = true })

abbrev pub auth_csrf : EndpointDefinition
auth_csrf =
    endpoint (lit "auth-csrf") get (lit "/api/v1/auth/csrf")
      (copy "Create a CSRF token"
        "Creates a session-bound double-submit token for cookie mutations." "CSRF-Token erzeugen"
        "Erzeugt ein sitzungsgebundenes Double-Submit-Token für Cookie-Mutationen."
        "CSRF token üret"
        "Cookie taşımasındaki mutasyonlar için oturuma bağlı double-submit token üretir.")
      EndpointGroup.authentication AuthRequirement.auth no_options

abbrev pub social_authorize : EndpointDefinition
social_authorize =
    endpoint (lit "social-authorize") get (lit "/api/v1/auth/social/{provider}/authorize")
      (copy "Start social sign-in"
        "Returns a local fixture URL in Development or a real provider URL elsewhere."
        "Social Login starten"
        "Liefert in Development eine Fixture-URL, sonst die echte Provider-URL."
        "Sosyal girişi başlat"
        "Development'ta yerel fixture URL'si; diğer ortamlarda gerçek sağlayıcı authorize URL'si döner.")
      EndpointGroup.authentication AuthRequirement.public
      (record no_options {
        path_params = record { name = (lit "provider"); value = (lit "google") } ∷ [];
        special = some social;
      })

abbrev pub social_callback : EndpointDefinition
social_callback =
    endpoint (lit "social-callback") get (lit "/api/v1/auth/social/{provider}/callback")
      (copy "Complete social sign-in"
        "Consumes signed state, maps the provider identity, and starts a session."
        "Social Login abschließen"
        "Verbraucht signierten State, ordnet die Provider-Identität zu und startet eine Sitzung."
        "Sosyal giriş callback"
        "İmzalı state'i tüketir, sağlayıcı kimliğini yerel hesaba dönüştürür ve oturum açar.")
      EndpointGroup.authentication AuthRequirement.public
      (record no_options {
        path_params = record { name = (lit "provider"); value = (lit "google") } ∷ [];
        query =
            record { name = (lit "code"); value = (lit "{{socialCode}}") }
            ∷ record { name = (lit "state"); value = (lit "{{socialState}}") }
            ∷ record { name = (lit "error"); value = (lit "") }
            ∷ [];
      })

abbrev pub email_send : EndpointDefinition
email_send =
    endpoint (lit "email-send") post (lit "/api/v1/email-verification/send")
      (copy "Resend verification email"
        "Sends the active user's verification link to the local Mailpit inbox."
        "Bestätigungsmail erneut senden"
        "Sendet den Bestätigungslink des aktiven Benutzers an Mailpit."
        "Doğrulama e-postasını yeniden gönder"
        "Aktif kullanıcının doğrulama bağlantısını yerel Mailpit inbox'ına yollar.")
      EndpointGroup.authentication AuthRequirement.auth no_options

abbrev pub email_confirm : EndpointDefinition
email_confirm =
    endpoint (lit "email-confirm") post (lit "/api/v1/email-verification/confirm")
      (copy "Verify the email address"
        "Consumes the one-time verification token from the Mailpit message."
        "E-Mail-Adresse bestätigen" "Verbraucht das einmalige Bestätigungstoken aus Mailpit."
        "E-posta adresini doğrula"
        "Mailpit mesajındaki tek kullanımlık doğrulama token'ını tüketir.")
      EndpointGroup.authentication AuthRequirement.public
      (record no_options {
        body = some (obj (field (lit "token") (str (lit "{{verificationToken}}")) end));
      })

abbrev pub password_request : EndpointDefinition
password_request =
    endpoint (lit "password-request") post (lit "/api/v1/password-reset/request")
      (copy "Request a password reset"
        "Sends a reset link to Mailpit without revealing account existence."
        "Passwort-Reset anfordern"
        "Sendet einen Reset-Link an Mailpit, ohne die Existenz des Kontos offenzulegen."
        "Parola sıfırlama iste"
        "Hesap varlığını açığa çıkarmadan Mailpit'e sıfırlama bağlantısı yollar.")
      EndpointGroup.authentication AuthRequirement.public
      (record no_options { body = some (obj (field (lit "email") (str demo.user.email) end)) })

abbrev pub password_confirm : EndpointDefinition
password_confirm =
    endpoint (lit "password-confirm") post (lit "/api/v1/password-reset/confirm")
      (copy "Save a new password"
        "Consumes the token, rotates the security stamp, and revokes every session."
        "Neues Passwort speichern"
        "Verbraucht das Token, rotiert den Security Stamp und widerruft alle Sitzungen."
        "Yeni parolayı kaydet"
        "Tek kullanımlık token'ı tüketir, security stamp'i döndürür ve tüm oturumları iptal eder.")
      EndpointGroup.authentication AuthRequirement.public
      (record no_options {
        body = some (
            obj (
              field (lit "token") (str (lit "{{passwordResetToken}}"))
                (field (lit "newPassword") (str (lit "N3w!River-Stone-Cobalt-82")) end)));
        destructive = true;
      })
