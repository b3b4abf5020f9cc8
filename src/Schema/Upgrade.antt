-- ===== src/Schema/Upgrade.antt =====
-- The migration makes what the models declare, and undoes it: `upgrade` and `downgrade` of
-- agent-observability/worker/migrations/versions/1983f984a553.
use open_weave.Prelude.{◌≡◌, refl, true, all, some, []}
use open_weave.Prelude.Dict.{get, remove}
use open_weave.Schema.{Schema, create_types, step, steps, migrate}
use open_weave.Schema.Frame.{is_apart, beside, migrate-beside}
use open_weave.Schema.Models.{declared}
use open_weave.Schema.Migration.{upgrade, downgrade}

abbrev empty : Schema
empty = record { tables = []; indexes = []; types = [] }

upgrade-empty : migrate upgrade empty ≡ some declared
unfolding migrate steps step create_types get remove
upgrade-empty = refl

downgrade-declared : migrate downgrade declared ≡ some empty
unfolding migrate steps step create_types get remove
downgrade-declared = refl

-- The migration makes exactly the tables, indexes and types that the models declare, column for
-- column and constraint for constraint, beside whatever else the database holds, where that is apart
-- from them.
pub migrate-upgrade :
    (base : Schema)
    → all (is_apart base) upgrade ≡ true
    → migrate upgrade base ≡ some (beside declared base)
migrate-upgrade base h = migrate-beside base upgrade empty declared h upgrade-empty

-- A downgrade after an upgrade goes through and leaves the database as it was, types included, where
-- what it held is apart from what the two create and drop.
pub migrate-downgrade-upgrade :
    (base : Schema)
    → all (is_apart base) upgrade ≡ true
    → all (is_apart base) downgrade ≡ true
    → (s : Schema) × (migrate upgrade base ≡ some s) × (migrate downgrade s ≡ some base)
migrate-downgrade-upgrade base up down = (
  beside declared base,
  migrate-upgrade base up,
  migrate-beside base downgrade declared empty down downgrade-declared,
)
