-- ===== src/Admin/Routes/Dispatch.antt =====
-- The handler that Routes of internal/admin/admin.go returns keeps an invariant of the tables where
-- the handlers of the table do.
use ooblivion.Shared.{ℕ, Str, ◌≡◌, refl, sym, subst, arith, Option}
use ooblivion.Db.{Tables, World}
use ooblivion.Db.Keeping.{Keeps}
use ooblivion.Http.{HttpRequest}
use ooblivion.Admin.{Handler}
use ooblivion.Admin.Forms.{form_aware}
use ooblivion.Admin.Viewing.{Site}
use ooblivion.Admin.Sessions.{auth}
use ooblivion.Admin.Keeping.Sessions.{Keeps-auth}
use ooblivion.Admin.Routes.{
  Route, Found, matched, unmatched, Web, Registered, files, open_page, open_form, session_page,
  session_form, registered, dispatch, handle, routes,
}

pub form_aware-world :
    (next : Handler) (r : HttpRequest) (w : World) → (form_aware next r w).1 ≡ (next w).1
unfolding form_aware
form_aware-world next r w = ground arith

module _ (P : Tables → Type 0) where
  -- The handler that is registered keeps `P`.
  abbrev pub IsKept : Registered → Type 0
  IsKept files = Unit
  IsKept (open_page next) = Keeps P next
  IsKept (open_form next) = Keeps P next
  IsKept (session_page next) = Keeps P next
  IsKept (session_form next) = Keeps P next

  pub form_aware-IsKept :
      (next : Handler) (r : HttpRequest)
      → Keeps P next
      → (w : World) → P w.db
      → P (form_aware next r w).1.db
  form_aware-IsKept next r k w h =
      subst (λ (v : World). P v.db) (sym (form_aware-world next r w)) (k.at w h)

  module _ (site : Site) (web : Web) (now : ℕ) (random : Option Str) (r : HttpRequest) where
    dispatch-IsKept :
        (o : Registered) → IsKept o → (w : World) → P w.db → P (dispatch site web r now o w).1.db
    dispatch-IsKept files k w h = h
    dispatch-IsKept (open_page next) k w h = k.at w h
    dispatch-IsKept (open_form next) k w h = form_aware-IsKept next r k w h
    dispatch-IsKept (session_page next) k w h = (Keeps-auth site.console next r now k).at w h
    dispatch-IsKept (session_form next) k w h =
        form_aware-IsKept (auth site.console next r now) r (Keeps-auth site.console next r now k) w
          h

    handle-IsKept :
        (found : Found)
        → ((route : Route) (id : Str)
            → found ≡ matched route id
            → IsKept (registered site web route id r now random))
        → (w : World) → P w.db
        → P (handle site web now random r found w).1.db
    handle-IsKept (matched route id) k = dispatch-IsKept _ (k route id refl)
    handle-IsKept (unmatched reply) k = λ w h. h

    pub routes-IsKept :
        ((route : Route) (id : Str)
          → web.find r ≡ matched route id
          → IsKept (registered site web route id r now random))
        → (w : World) → P w.db
        → P (routes site web now random r w).1.db
    unfolding routes
    routes-IsKept k w h = handle-IsKept (web.find r) k w h
