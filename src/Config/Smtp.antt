-- ===== src/Config/Smtp.antt =====
-- `SmtpTls` and `resolve_smtp_tls`: the one transport mode of an SMTP target.
use freshdock.Prelude.{
  Bool, true, false, Option, none, some, ◌++◌, Text, codes, ◌==◌, Result, ok, err, if◌then◌else◌,
}
use freshdock.Prelude.Chars.{trim, to_ascii_lowercase}

pub data SmtpTls : Type 0 where
  starttls implicit plaintext : SmtpTls

-- `Display`
unfoldable pub tls_text : SmtpTls → Text
tls_text starttls = codes "starttls"
tls_text implicit = codes "implicit"
tls_text plaintext = codes "none"

-- `FromStr`
unfoldable pub parse_tls : Text → Result SmtpTls Text
unfolding trim to_ascii_lowercase
parse_tls raw =
    let v = to_ascii_lowercase (trim raw) in
    if v == codes "starttls"
    then ok starttls
    else (if v == codes "implicit"
        then ok implicit
        else (if v == codes "none"
            then ok plaintext
            else err (
                codes "unknown smtp tls mode `"
                ++ (raw ++ codes "` (expected starttls, implicit, or none)"))))

unfoldable pub bool_text : Bool → Text
bool_text true = codes "true"
bool_text false = codes "false"

unfoldable pub contradiction : SmtpTls → Bool → Text
unfolding tls_text bool_text
contradiction tls legacy =
    codes "tls = \""
    ++ (tls_text tls
        ++ (codes "\" contradicts starttls = "
            ++ (bool_text legacy ++ codes "; remove the legacy starttls key")))

abbrev pub both_keys : SmtpTls → Bool → Result SmtpTls Text
both_keys starttls true = ok starttls
both_keys implicit false = ok implicit
both_keys tls legacy = err (contradiction tls legacy)

unfoldable pub resolve_smtp_tls :
    (tls : Option SmtpTls) (legacy : Option Bool) → Result SmtpTls Text
unfolding contradiction
resolve_smtp_tls (some tls) (some legacy) = both_keys tls legacy
resolve_smtp_tls (some tls) none = ok tls
resolve_smtp_tls none (some true) = ok starttls
resolve_smtp_tls none (some false) = ok implicit
resolve_smtp_tls none none = ok starttls
