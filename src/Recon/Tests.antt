-- ===== src/Recon/Tests.antt =====
-- src/core/recon-tracker.js: the properties at concrete attempts.
use shield_wall.Prelude.{◌≡◌, refl, true, false, [], ◌∷◌, JsMap, codes}
use shield_wall.Paths.{is_scanner_path, is_sensitive_target, endpoint_sensitivity}
use shield_wall.Recon.{Trace}
use shield_wall.Recon.Taint.{IsBounded, attempts, asks, run, run-IsBounded}

scans : is_scanner_path (codes "/.ENV") ≡ true
unfolding is_scanner_path
scans = refl

words : is_scanner_path (codes "/api/v2/debugger") ≡ false
unfolding is_scanner_path
words = refl

sensitive : is_sensitive_target (codes "/x/api/v12/users/7") ≡ true
unfolding is_sensitive_target
sensitive = refl

payment : endpoint_sensitivity (codes "/API/v1/payment") ≡ 20
unfolding endpoint_sensitivity
payment = refl

abbrev old : JsMap Trace
old = (codes "a", record { score = 24; last_seen = 5; paths = [] }) ∷ []

run-IsBounded_example :
    IsBounded (run [] ((7, attempts (codes "a") (codes "/.env") 404) ∷ (8, asks (codes "a")) ∷ []))
run-IsBounded_example =
    run-IsBounded ((7, attempts (codes "a") (codes "/.env") 404) ∷ (8, asks (codes "a")) ∷ [])
