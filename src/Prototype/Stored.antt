-- ===== src/Prototype/Stored.antt =====
-- What holds of the data in memory and in the storage holds of the data that are read.
use charge_api.Prelude.{Bool, if◌then◌else◌, get_or, true, false, Option, none, some}
use charge_api.Prototype.Model.{PrototypeData}
use charge_api.Prototype.Storage.{Storage, data_in, put_data}

abbrev pub AllIn : (PrototypeData → Type 0) → Option PrototypeData → Type 0
AllIn P none = Unit
AllIn P (some d) = P d

-- The data in memory, and those in the storage if it holds any.
abbrev pub IsHeldBy : (PrototypeData → Type 0) → Storage → Type 0
IsHeldBy P s = P s.memory × AllIn P s.item

module _ (P : PrototypeData → Type 0) where
  pub data_in-held : (s : Storage) → IsHeldBy P s → P (data_in s)
  unfolding data_in
  data_in-held s (m, i) = of s.readable s.item i
    where
      of :
          (r : Bool) (o : Option PrototypeData)
          → AllIn P o
          → P (if r then get_or o s.memory else s.memory)
      of true none i = m
      of true (some d) i = i
      of false o i = m

  pub put_data-held :
      (d : PrototypeData) (s : Storage) → P d → IsHeldBy P s → IsHeldBy P (put_data d s)
  unfolding put_data
  put_data-held d s p (m, i) = (p, of s.writable)
    where
      of : (w : Bool) → AllIn P (if w then some d else s.item)
      of true = p
      of false = i

  -- What is read after a write is what was written or what was read before.
  pub data_in-put_data :
      (d : PrototypeData) (s : Storage) → P d → P (data_in s) → P (data_in (put_data d s))
  unfolding data_in put_data
  data_in-put_data d s p q = of s.readable s.writable s.item q
    where
      of :
          (r w : Bool) (o : Option PrototypeData)
          → P (if r then get_or o s.memory else s.memory)
          → P (if r then get_or (if w then some d else o) d else d)
      of true true o q = p
      of true false none q = p
      of true false (some e) q = q
      of false w o q = p
