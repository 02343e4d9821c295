-- ===== src/Admin/Forms/Redirects.antt =====
-- What formAware of internal/admin/admin.go tells a browser.
use ooblivion.Shared.{◌≡◌, ◌↔◌, arith, Str, codes, true, [], ◌∷◌, ◌++◌}
use ooblivion.Db.{World}
use ooblivion.Http.{HttpRequest}
use ooblivion.Admin.{Handler, reply_of, redirect}
use ooblivion.Admin.Forms.{is_form, redirect_base, form_redirect_target, redirected, form_aware}

different : (base : Str) → (base ++ codes "?flash=error" ≡ base ++ codes "?flash=success") → ⊥
different [] h = ground arith
different (c ∷ base) h = ground (arith, different base)

-- A form gets a redirect, never the handler's own answer; the handler runs once, as without a
-- form, and its cookie is set; the redirect tells of success exactly if the handler answered 200.
pub form_aware_iff :
    (next : Handler) (r : HttpRequest) (w : World)
    → is_form r ≡ true
    → ((form_aware next r w).1 ≡ (next w).1)
      × ((form_aware next r w).0.status ≡ 303)
      × ((form_aware next r w).0.session ≡ (reply_of (next w).0).session)
      × ((form_aware next r w).0.content ≡ redirect (redirect_base r.path ++ codes "?flash=success")
          ↔ (reply_of (next w).0).status ≡ 200)
unfolding form_aware redirected form_redirect_target
form_aware_iff next r w h = ground (arith, different (redirect_base r.path))
