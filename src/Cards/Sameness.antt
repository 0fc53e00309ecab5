-- ===== src/Cards/Sameness.antt =====
-- The comparison of piles misses no field.
use Prim.Native.Nat.{◌^◌}
use charge_api.Prelude.{
  ℕ, ◌*◌, ◌==◌, ◌≡◌, refl, arith, Bool, true, ◌&&◌, Option, none, some, String, List, [], ◌∷◌,
  str_eq, eq_iff, eq_refl,
}
use charge_api.Types.{PortStatus, Decimal, Port, Pile}
use charge_api.Workbench.Selection.{same_status}
use charge_api.Cards.{
  same_decimal, same_text, same_order, same_bool, same_port_ids, same_port, same_ports, same_pile,
}

same_text_sound : (a b : Option String) → same_text a b ≡ true → a ≡ b
same_text_sound none none h = refl
same_text_sound none (some b) h = cc
same_text_sound (some a) none h = cc
same_text_sound (some a) (some b) h = ground (arith, eq_iff a b)

same_order_sound : (a b : Option ℕ) → same_order a b ≡ true → a ≡ b
same_order_sound a b h = ground arith

same_bool_sound : (a b : Bool) → same_bool a b ≡ true → a ≡ b
same_bool_sound a b h = ground arith

same_port_ids_sound : (a b : List ℕ) → same_port_ids a b ≡ true → a ≡ b
unfolding same_port_ids
same_port_ids_sound [] [] h = refl
same_port_ids_sound [] (y ∷ ys) h = cc
same_port_ids_sound (x ∷ xs) [] h = cc
same_port_ids_sound (x ∷ xs) (y ∷ ys) h = ground (arith, same_port_ids_sound xs ys)

-- Two decimals of one value.
abbrev pub HasValue : Decimal → Decimal → Type 0
HasValue a b = a.mantissa * 10 ^ b.scale ≡ b.mantissa * 10 ^ a.scale

-- Ports that are alike but for how their two decimals are written.
abbrev pub IsPort : Port → Port → Type 0
IsPort a b =
    (a ≡ record b { power_kw = a.power_kw; energy_kwh = a.energy_kwh })
    × HasValue a.power_kw b.power_kw
    × HasValue a.energy_kwh b.energy_kwh

abbrev pub ArePorts : List Port → List Port → Type 0
ArePorts [] [] = Unit
ArePorts (x ∷ xs) (y ∷ ys) = IsPort x y × ArePorts xs ys
ArePorts _ _ = ⊥

both : (a b : Bool) → (a && b) ≡ true → (a ≡ true) × (b ≡ true)
both a b h = ground arith

module _ (a b c d e f g h i j : Bool) where
  -- Ten tests in a row.
  ten :
      (a && b && c && d && e && f && g && h && i && j) ≡ true
      → (a ≡ true)
        × (b ≡ true)
        × (c ≡ true)
        × (d ≡ true)
        × (e ≡ true)
        × (f ≡ true)
        × (g ≡ true)
        × (h ≡ true)
        × (i ≡ true)
        × (j ≡ true)
  ten all_of = ground arith

text_path : (a b : String) → str_eq a b ≡ true → a ≡ b
text_path a b h = ground (arith, eq_iff a b)

number_path : (a b : ℕ) → (a == b) ≡ true → a ≡ b
number_path a b h = ground arith

status_path : (a b : PortStatus) → same_status a b ≡ true → a ≡ b
status_path a b h = ground arith

same_port-IsPort : (a b : Port) → same_port a b ≡ true → IsPort a b
unfolding same_port same_decimal
same_port-IsPort a b h =
    let (id, status, power, energy, updated, started, session, used, text, remaining) =
      ten (a.id == b.id) (same_status a.status b.status) (same_decimal a.power_kw b.power_kw)
        (same_decimal a.energy_kwh b.energy_kwh) (str_eq a.updated_at b.updated_at)
        (same_text a.started_at b.started_at) (a.session_min == b.session_min)
        (a.used_seconds == b.used_seconds) (same_text a.used_text b.used_text)
        (same_text a.remaining_text b.remaining_text) h in
    (
      λ k. record {
        id = number_path a.id b.id id k;
        status = status_path a.status b.status status k;
        power_kw = a.power_kw;
        energy_kwh = a.energy_kwh;
        updated_at = text_path a.updated_at b.updated_at updated k;
        started_at = same_text_sound a.started_at b.started_at started k;
        session_min = number_path a.session_min b.session_min session k;
        used_seconds = number_path a.used_seconds b.used_seconds used k;
        used_text = same_text_sound a.used_text b.used_text text k;
        remaining_text = same_text_sound a.remaining_text b.remaining_text remaining k;
      },
      number_path _ _ power,
      number_path _ _ energy,
    )

same_ports-ArePorts : (xs ys : List Port) → same_ports xs ys ≡ true → ArePorts xs ys
unfolding same_ports
same_ports-ArePorts [] [] h = tt
same_ports-ArePorts [] (y ∷ ys) h = cc
same_ports-ArePorts (x ∷ xs) [] h = cc
same_ports-ArePorts (x ∷ xs) (y ∷ ys) h =
    let (here, later) = both (same_port x y) (same_ports xs ys) h in
    (same_port-IsPort x y here, same_ports-ArePorts xs ys later)

same_pile_sound :
    (a b : Pile)
    → same_pile a b ≡ true
    → (a ≡ record b { ports = a.ports }) × ArePorts a.ports b.ports
unfolding same_pile
same_pile_sound a b h =
    let (fields, ports) = both _ (same_ports a.ports b.ports) h in
    let (fields', used) = both _ (same_port_ids a.used_port_ids b.used_port_ids) fields in
    let (fields'', order) = both _ (same_order a.sort_order b.sort_order) fields' in
    let (id, number, name, status, address, open_num, online, created, updated, source) =
      ten (str_eq a.id b.id) (str_eq a.number b.number) (str_eq a.name b.name)
        (str_eq a.status b.status) (str_eq a.address b.address) (a.open_num == b.open_num)
        (same_bool a.online b.online) (str_eq a.created_at b.created_at)
        (str_eq a.updated_at b.updated_at) (str_eq a.source b.source) fields'' in
    (
      λ k. record {
        id = text_path a.id b.id id k;
        number = text_path a.number b.number number k;
        name = text_path a.name b.name name k;
        status = text_path a.status b.status status k;
        address = text_path a.address b.address address k;
        open_num = number_path a.open_num b.open_num open_num k;
        online = same_bool_sound a.online b.online online k;
        created_at = text_path a.created_at b.created_at created k;
        updated_at = text_path a.updated_at b.updated_at updated k;
        source = text_path a.source b.source source k;
        ports = a.ports;
        used_port_ids = same_port_ids_sound a.used_port_ids b.used_port_ids used k;
        sort_order = same_order_sound a.sort_order b.sort_order order k;
      },
      same_ports-ArePorts a.ports b.ports ports,
    )

number_self : (a : ℕ) → (a == a) ≡ true
number_self a = ground arith

status_self : (a : PortStatus) → same_status a a ≡ true
status_self a = ground arith

bool_self : (a : Bool) → same_bool a a ≡ true
bool_self a = ground arith

text_self : (a : Option String) → same_text a a ≡ true
text_self none = refl
text_self (some a) = eq_refl a

order_self : (a : Option ℕ) → same_order a a ≡ true
order_self a = ground arith

same_port_ids_self : (ids : List ℕ) → same_port_ids ids ids ≡ true
unfolding same_port_ids
same_port_ids_self [] = refl
same_port_ids_self (a ∷ ids) = rw (number_self a, same_port_ids_self ids)

same_port_self : (a : Port) → same_port a a ≡ true
unfolding same_port same_decimal
same_port_self a = rw (
  number_self a.id,
  status_self a.status,
  number_self (a.power_kw.mantissa * 10 ^ a.power_kw.scale),
  number_self (a.energy_kwh.mantissa * 10 ^ a.energy_kwh.scale),
  eq_refl a.updated_at,
  text_self a.started_at,
  number_self a.session_min,
  number_self a.used_seconds,
  text_self a.used_text,
  text_self a.remaining_text,
)

same_ports_self : (ports : List Port) → same_ports ports ports ≡ true
unfolding same_ports
same_ports_self [] = refl
same_ports_self (a ∷ ports) = rw (same_port_self a, same_ports_self ports)

same_pile_self : (a : Pile) → same_pile a a ≡ true
unfolding same_pile
same_pile_self a = rw (
  eq_refl a.id,
  eq_refl a.number,
  eq_refl a.name,
  eq_refl a.status,
  eq_refl a.address,
  number_self a.open_num,
  bool_self a.online,
  eq_refl a.created_at,
  eq_refl a.updated_at,
  eq_refl a.source,
  order_self a.sort_order,
  same_port_ids_self a.used_port_ids,
  same_ports_self a.ports,
)

-- A card is not drawn again for a pile that did not change at all. And if a pile is taken for the one
-- before, so that its card is not drawn again, the two are the same in every field, and so are their
-- ports, one by one, but for how a decimal is written.
same_pile_lem :
    (a b : Pile)
    → (same_pile a a ≡ true)
      × (same_pile a b ≡ true → (a ≡ record b { ports = a.ports }) × ArePorts a.ports b.ports)
same_pile_lem a b = (same_pile_self a, same_pile_sound a b)
