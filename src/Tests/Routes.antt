-- ===== src/Tests/Routes.antt =====
-- The routes of a decision and what they send at concrete inputs.
use tiny_mirror.Prelude.{
  ◌≡◌, ◌↔◌, refl, String, Bool, true, Option, none, some, [], ◌∷◌, pos, ◌-ℤ◌, ◌*ℤ◌, ◌+ℤ◌,
}
use tiny_mirror.Pricing.{nearest, nearest_ℕ}
use tiny_mirror.Promotions.Score.{discount_of}
use tiny_mirror.Promotions.Decisions.{Row, approved, ok, by_id}
use tiny_mirror.Promotions.Write.{Request, WriteResult}
use tiny_mirror.Promotions.Apply.{body_of, build_apply_body}
use tiny_mirror.Promotions.Apply.Fit.{IsFit, build_apply_body-IsFit}
use tiny_mirror.Promotions.Routes.{DecideIn, approve_decision}
use tiny_mirror.Promotions.Routes.Serve.{approve_one, serve_route}
use tiny_mirror.Promotions.Routes.Allowed.{EndsBy, is_allowed}
use tiny_mirror.Promotions.Routes.Guards.{serve_route-EndsBy}
use tiny_mirror.Promotions.Routes.Floor.{approved_at_any_price}
use tiny_mirror.Tests.Promotions.{decision}

abbrev same : String → String
same s = s

abbrev dates : String × String
dates = ("2026-06-01T00:00:00", "2026-07-01T00:00:00")

abbrev accepts : Request → Option WriteResult
accepts r = some (record { ok = true; status_code = some 201; error = none })

abbrev plainly : Bool → Bool → Option String → Option String
plainly over_cap under_floor notes = notes

-- R$ 50.00, where the floor is R$ 75.00.
abbrev cheaply : DecideIn
cheaply = record {
  decided_by = some "ana";
  notes = none;
  target_price = some (pos 5000);
  units = none;
}

approved_at_any_price_example :
    (row : Row) × (by_id 1
        (approve_decision same dates accepts plainly true 900 1 cheaply (decision ∷ [])).1
      ≡ some row)
    × (row.status ≡ approved)
    × (row.target_price ≡ some (pos 5000))
    × (row.ml_apply_status ≡ some ok)
unfolding ◌-ℤ◌ ◌*ℤ◌ ◌+ℤ◌ nearest nearest_ℕ discount_of
approved_at_any_price_example =
    approved_at_any_price same dates accepts plainly 900 1 decision (decision ∷ []) refl refl
      cheaply "P-1" 9999 (pos 5000) (record { ok = true; status_code = some 201; error = none })
      refl refl refl refl refl refl refl refl

build_apply_body-IsFit_example :
    (build_apply_body same dates decision ≡ some (body_of "DEAL" (some (pos 8000)) (some "P-1")))
    ↔ IsFit dates "DEAL" decision (body_of "DEAL" (some (pos 8000)) (some "P-1"))
build_apply_body-IsFit_example =
    build_apply_body-IsFit same dates decision (body_of "DEAL" (some (pos 8000)) (some "P-1"))

serve_route-EndsBy_example :
    EndsBy
      (is_allowed (approve_one true 900 1 cheaply) (some decision))
      1
      approved
      (decision ∷ [])
      (serve_route same dates accepts plainly (approve_one true 900 1 cheaply) (decision ∷ []))
serve_route-EndsBy_example =
    serve_route-EndsBy same dates accepts plainly (approve_one true 900 1 cheaply) (decision ∷ [])
