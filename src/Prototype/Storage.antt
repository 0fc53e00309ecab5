-- ===== src/Prototype/Storage.antt =====
-- The data of the preview in the browser's storage and in memory, as `getSnapshot` and `updateStore` of
-- frontend/app/prototype/context.tsx read and write them. Here the data stand for their text.
use charge_api.Prelude.{Bool, Option, some, if◌then◌else◌, get_or}
use charge_api.Prototype.Model.{PrototypeData}

-- `readable` and `writable`: `getItem` and `setItem` do not throw. `item` is what the storage holds.
pub record Storage : Type 0 where
  pub readable : Bool
  pub writable : Bool
  pub item : Option PrototypeData
  pub memory : PrototypeData

unfoldable pub data_in : Storage → PrototypeData
data_in s = if s.readable then get_or s.item s.memory else s.memory

-- `memory` is always written, and the storage if it takes the text.
unfoldable pub put_data : PrototypeData → Storage → Storage
put_data d s = record s { memory = d; item = if s.writable then some d else s.item }

unfoldable pub update_data : (PrototypeData → PrototypeData) → Storage → Storage
unfolding data_in put_data
update_data recipe s = put_data (recipe (data_in s)) s
