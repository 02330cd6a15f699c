-- ===== src/AutoRules/Tests.antt =====
-- src/core/engine.js, `_generateAutoRule`: the limits at concrete calls.
use shield_wall.Prelude.{◌≡◌, refl, true, [], codes}
use shield_wall.AutoRules.{Trigger, Generator, escaped_prefix}

abbrev fresh : Generator
fresh = record { enabled = true; hashes = []; rate_limit = [] }

abbrev attack : Trigger
attack = record {
  critical_anomaly = true;
  raw_body = codes "a.b  (c) or 1=1";
  novel_indicators = 4;
  ip = codes "10.0.0.1";
}

escapes : escaped_prefix (codes "a.b  (c)") ≡ codes "a\\.b\\s+\\(c\\)"
unfolding escaped_prefix
escapes = refl
