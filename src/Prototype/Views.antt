-- ===== src/Prototype/Views.antt =====
-- The data that stand for the text of `getSnapshot` and `updateStore` in frontend/app/prototype/context.tsx
-- against the text itself.
use charge_api.Prelude.{
  ◌≡◌, refl, ap, ◌∙◌, Bool, true, false, not, Option, none, some, String, str_eq, is_truthy, get_or,
  if◌then◌else◌, ◌==◌, ◌&&◌,
}
use charge_api.Prototype.Model.{PrototypeData}
use charge_api.Prototype.Storage.{Storage, data_in, put_data, update_data}
use charge_api.Prototype.Store.{Store, safe_data, safe_lem, get_snapshot, read, update_store}

module _ (parse : String → Option PrototypeData) (stringify : PrototypeData → String)
    (is_date : String → Bool) where
  -- What a text stands for, where there is one.
  abbrev item_of : Option String → Option PrototypeData
  item_of o = if is_truthy o then some (safe_data parse stringify is_date (get_or o "")) else none

  -- The storage and the memory, by the data that their texts stand for.
  unfoldable pub view : Store → Storage
  view s = record {
    readable = s.readable;
    writable = s.writable;
    item = item_of s.item;
    memory = safe_data parse stringify is_date s.memory;
  }

  read-view : (s : Store) → read parse stringify is_date s ≡ data_in (view s)
  unfolding read get_snapshot data_in view
  read-view s = of s.readable s.item
    where
      chosen :
          (b : Bool) (t : String)
          → safe_data parse stringify is_date (if b then t else s.memory)
            ≡ get_or
                (if b then some (safe_data parse stringify is_date t) else none)
                (safe_data parse stringify is_date s.memory)
      chosen true t = refl
      chosen false t = refl

      of :
          (r : Bool) (o : Option String)
          → safe_data parse stringify is_date (if r && is_truthy o then get_or o "" else s.memory)
            ≡ (if r
                then get_or (item_of o) (safe_data parse stringify is_date s.memory)
                else safe_data parse stringify is_date s.memory)
      of false o = refl
      of true none = refl
      of true (some t) = chosen (not (str_eq t "")) t

  -- What stands for the storage after a text was written to it.
  item_of-written :
      (d : PrototypeData) (w : Bool) (o : Option String)
      → str_eq (stringify d) "" ≡ false
      → safe_data parse stringify is_date (stringify d) ≡ d
      → item_of (if w then some (stringify d) else o) ≡ (if w then some d else item_of o)
  item_of-written d true o full q = rw full (ap some q)
  item_of-written d false o full q = refl

  -- Reading the text is reading the data, and an update of the text is that update of the data: in memory,
  -- and in the storage where it is taken. Conditions: the updated data have a text that is not empty, are
  -- parsed from it, and are of the version and the form that `safeData` asks for.
  pub update_store-view :
      (recipe : PrototypeData → PrototypeData) (s : Store)
      → let d = recipe (read parse stringify is_date s) in
        str_eq (stringify d) "" ≡ false
        → parse (stringify d) ≡ some d
        → (d.version == 2 && is_date d.snapshot_at) ≡ true
        → (read parse stringify is_date s ≡ data_in (view s))
          × (view (update_store parse stringify is_date recipe s) ≡ update_data recipe (view s))
  unfolding view update_store update_data put_data
  update_store-view recipe s full parsed fine =
      let d = recipe (read parse stringify is_date s) in
      let back = safe_lem parse stringify is_date (stringify d) d parsed fine in
      (
        read-view s,
        ap
              (λ i. record {
                readable = s.readable;
                writable = s.writable;
                item = i;
                memory = safe_data parse stringify is_date (stringify d);
              })
              (item_of-written d s.writable s.item full back)
            ∙ ap
                (λ m. record {
                  readable = s.readable;
                  writable = s.writable;
                  item = if s.writable then some d else item_of s.item;
                  memory = m;
                })
                back
            ∙ ap (λ e. put_data e (view s)) (ap recipe (read-view s)),
      )
