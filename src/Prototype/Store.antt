-- ===== src/Prototype/Store.antt =====
-- `getSnapshot`, `updateStore` and `safeData` of frontend/app/prototype: the data as text, in the browser's
-- storage or in memory. `parse` is `JSON.parse`, which gives data of the shape that `safeData` tests or none,
-- and `stringify` is `JSON.stringify`.
use charge_api.Prelude.{
  ◌==◌, ◌≡◌, refl, ap, ◌∙◌, arith, Bool, true, false, not, ◌&&◌, ◌||◌, Option, none, some, String,
  str_eq, is_truthy, get_or, if◌then◌else◌,
}
use charge_api.Prototype.Model.{PrototypeData}
use charge_api.Prototype.Seed.{initial_data}

-- `readable` and `writable`: `getItem` and `setItem` do not throw. `item` is what the storage holds.
pub record Store : Type 0 where
  pub readable : Bool
  pub writable : Bool
  pub item : Option String
  pub memory : String

unfoldable pub get_snapshot : Store → String
get_snapshot s = if s.readable && is_truthy s.item then get_or s.item "" else s.memory

abbrev safe_parsed : (is_date : String → Bool) → Option PrototypeData → PrototypeData
safe_parsed is_date none = initial_data
safe_parsed is_date (some parsed) =
    if parsed.version == 2 && is_date parsed.snapshot_at then parsed else initial_data

module _ (parse : String → Option PrototypeData) (stringify : PrototypeData → String)
    (is_date : String → Bool) where
  unfoldable pub safe_data : String → PrototypeData
  safe_data serialized = safe_parsed is_date (parse serialized)

  -- `data`, as the provider reads it.
  unfoldable pub read : Store → PrototypeData
  unfolding safe_data get_snapshot
  read s = safe_data (get_snapshot s)

  unfoldable pub update_store : (PrototypeData → PrototypeData) → Store → Store
  unfolding read
  update_store recipe s =
      let text = stringify (recipe (read s)) in
      record s { memory = text; item = if s.writable then some text else s.item }

-- The storage takes what it gives: it can be written, or cannot be read, or holds nothing.
abbrev pub is_faithful : Store → Bool
is_faithful s = s.writable || not s.readable || not (is_truthy s.item)

snapshot_lem :
    (text : String) (s : Store)
    → str_eq text "" ≡ false
    → is_faithful s ≡ true
    → get_snapshot (record s { memory = text; item = if s.writable then some text else s.item })
      ≡ text
unfolding get_snapshot
snapshot_lem text s full faithful = ground (arith, full, faithful)

pub safe_lem :
    (parse : String → Option PrototypeData) (stringify : PrototypeData → String)
    (is_date : String → Bool) (text : String) (d : PrototypeData)
    → parse text ≡ some d
    → (d.version == 2 && is_date d.snapshot_at) ≡ true
    → safe_data parse stringify is_date text ≡ d
unfolding safe_data
safe_lem parse stringify is_date text d q fine =
    ap (safe_parsed is_date) q ∙ go (d.version == 2 && is_date d.snapshot_at) fine
  where
    go : (b : Bool) → b ≡ true → (if b then d else initial_data) ≡ d
    go true h = refl
    go false h = absurd cc

-- What is written is read back, where the storage takes what it gives. Conditions, on the data that the recipe
-- leaves: the parser reads what the printer wrote, which is not empty, and `safeData` accepts them.
read-update_store :
    (parse : String → Option PrototypeData) (stringify : PrototypeData → String)
    (is_date : String → Bool) (recipe : PrototypeData → PrototypeData) (s : Store)
    → (let d = recipe (read parse stringify is_date s) in
        (parse (stringify d) ≡ some d)
        × (str_eq (stringify d) "" ≡ false)
        × ((d.version == 2 && is_date d.snapshot_at) ≡ true))
    → is_faithful s ≡ true
    → read parse stringify is_date (update_store parse stringify is_date recipe s)
      ≡ recipe (read parse stringify is_date s)
unfolding read update_store
read-update_store parse stringify is_date recipe s (law, full, fine) faithful =
    let d = recipe (read parse stringify is_date s) in
    ap (safe_data parse stringify is_date) (snapshot_lem (stringify d) s full faithful)
    ∙ safe_lem parse stringify is_date (stringify d) d law fine

-- Where the storage holds data and refuses more, whatever is written is lost: what is read is what was
-- read before.
pub update_store_lost :
    (parse : String → Option PrototypeData) (stringify : PrototypeData → String)
    (is_date : String → Bool) (recipe : PrototypeData → PrototypeData) (s : Store)
    → is_faithful s ≡ false
    → read parse stringify is_date (update_store parse stringify is_date recipe s)
      ≡ read parse stringify is_date s
unfolding read update_store get_snapshot
update_store_lost parse stringify is_date recipe s broken =
    ap (safe_data parse stringify is_date) (ground (arith, broken))
