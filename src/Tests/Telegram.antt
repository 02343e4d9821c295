-- ===== src/Tests/Telegram.antt =====
-- internal/telegram/telegram.go and the alerts of internal/capture/classify.go.
use ooblivion.Shared.{codes, itoa_ℕ, replace_all, some, false, ◌≡◌, refl}
use ooblivion.Capture.Classify.{build_alert}
use ooblivion.Telegram.{escape_md}
use ooblivion.Telegram.Markdown.{read_plain, read_plain-escape_md}
use ooblivion.Models.{Request}
use ooblivion.Tests.Samples.{classifying, old_request}

escape_md_test : escape_md (codes "saved-query v1.0") ≡ codes "saved\\-query v1\\.0"
unfolding escape_md
escape_md_test = refl

-- the text of TestBuildAlertMarkdownV2, for a time that is not parsed
build_alert_test :
    build_alert classifying
      (record old_request {
        id = 123;
        host = codes "acme.corp";
        path = codes "/data";
        query = codes "saved=1";
        source_ip = codes "198.51.100.77";
        created_at = codes "now";
      })
      (codes "saved-query")
      (codes "https://ooblivion.acme.corp")
    ≡ codes
        "*OOBlivion Alert*\n\nAlert Name: saved\\-query\nTime: now\n\nIP: `198.51.100.77`\n`GET acme.corp/data?saved=1`\n\nView Url: [https://ooblivion\\.acme\\.corp/admin/requests/123](https://ooblivion.acme.corp/admin/requests/123)"
unfolding build_alert escape_md replace_all itoa_ℕ
build_alert_test = refl

read_plain-escape_md_example :
    read_plain false (escape_md (codes "a_b\\.c")) ≡ some (codes "a_b\\.c")
read_plain-escape_md_example = read_plain-escape_md (codes "a_b\\.c")

abbrev breaking : Request
breaking = record old_request {
  method = codes "GET";
  host = codes "a";
  path = codes "/";
  query = codes "\\`*x";
}
