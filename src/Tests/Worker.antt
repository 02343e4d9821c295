-- ===== src/Tests/Worker.antt =====
-- The worker of the alerts and the migrations, at inputs that meet their theorems' hypotheses.
use ooblivion.Shared.{
  ℕ, suc, ◌≡◌, refl, Str, codes, List, [], ◌∷◌, any, insert, order_by, str_lt, str_eq,
}
use ooblivion.Exec.{ok}
use ooblivion.Db.{World, faulty}
use ooblivion.Db.Migrations.{
  Outcome, finished, Handle, migrate, apply_all, apply_one, is_applied, run_script, mark_applied,
  unfailing, migrate-migrate,
}
use ooblivion.Capture.Saving.{healthy}
use ooblivion.Telegram.{Job}
use ooblivion.Telegram.Sender.{run_rounds}
use ooblivion.Telegram.Worker.{noted_all, run_rounds-noted_all}
use ooblivion.Tests.Samples.{world}
use ooblivion.Tests.Program.{bot}

abbrev pub alert : Job
alert = record { rule_id = 1; request_id = 2; rule_name = codes "r"; text = codes "x" }

-- The second alert is about a request that is gone.
abbrev queued : World
queued = record world { queue = alert ∷ record alert { request_id = 7 } ∷ [] }

abbrev instant : ℕ → ℕ
instant n = n

run_rounds-noted_all_example :
    run_rounds bot instant 2 (healthy queued)
    ≡ healthy (record queued { db = noted_all bot instant queued.queue queued.db; queue = [] })
run_rounds-noted_all_example = run_rounds-noted_all bot instant queued

abbrev counting : Str → ℕ → Outcome × ℕ
counting name n = (finished, suc n)

abbrev names : List Str
names = codes "002_b.sql" ∷ codes "001_a.sql" ∷ []

abbrev empty : Handle ℕ
empty = record { schema = 0; applied = []; faults = [] }

migrated_lem : (migrate counting names empty).0 ≡ ok tt
unfolding migrate apply_all apply_one is_applied run_script mark_applied order_by insert str_lt
    str_eq any faulty
migrated_lem = refl

migrate-migrate_example :
    migrate counting names (unfailing (migrate counting names empty).1)
    ≡ (ok tt, unfailing (migrate counting names empty).1)
migrate-migrate_example = migrate-migrate counting names empty migrated_lem
