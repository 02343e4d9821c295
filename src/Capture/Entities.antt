-- ===== src/Capture/Entities.antt =====
-- How a reader of MarkdownV2 takes the code entity that buildAlert of internal/capture/classify.go
-- makes of a request's line.
use ooblivion.Shared.{Str, codes, [], ◌∷◌, ◌++◌}
use ooblivion.Models.{Request}
use ooblivion.Telegram.{escape_md}
use ooblivion.Capture.Classify.{Classifying, view_link, ip_line, format_time_id}

-- The query as it stands in a request's line.
abbrev pub query_part : Str → Str
query_part [] = []
query_part (c ∷ query) = b'?' ∷ c ∷ query

-- A request's line, nothing escaped.
abbrev pub request_line : Request → Str
request_line req = req.method ++ (codes " " ++ (req.host ++ (req.path ++ query_part req.query)))

module _ (c : Classifying) (req : Request) (rule_name public_url : Str) where
  -- An alert up to the backquote that opens the entity of the request's line.
  abbrev pub heading : Str
  heading =
      codes "*OOBlivion Alert*\n\nAlert Name: "
      ++ (escape_md rule_name
          ++ (codes "\nTime: "
              ++ (escape_md (format_time_id c req.created_at) ++ (codes "\n\n" ++ ip_line c req))))

  -- An alert behind that entity.
  abbrev pub ending : Str
  ending = codes "\n\nView Url: " ++ view_link c req.id public_url
