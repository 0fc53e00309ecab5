-- ===== src/Cards.antt =====
-- frontend/components/pile-card.tsx: when two piles are drawn alike, so that a card is not drawn again.
pub mod Sameness
mod Tests
use Prim.Native.Nat.{◌^◌}
use charge_api.Prelude.{
  ℕ, ◌*◌, ◌==◌, Bool, true, false, ◌&&◌, Option, none, some, String, List, [], ◌∷◌, str_eq,
}
use charge_api.Types.{Decimal, Port, Pile}
use charge_api.Workbench.Selection.{same_status}

-- `===` of two numbers that were read from decimal texts.
unfoldable pub same_decimal : Decimal → Decimal → Bool
same_decimal a b = a.mantissa * 10 ^ b.scale == b.mantissa * 10 ^ a.scale

-- `===` where either side may be absent.
abbrev pub same_text : Option String → Option String → Bool
same_text none none = true
same_text (some a) (some b) = str_eq a b
same_text _ _ = false

abbrev pub same_order : Option ℕ → Option ℕ → Bool
same_order none none = true
same_order (some a) (some b) = a == b
same_order _ _ = false

abbrev pub same_bool : Bool → Bool → Bool
same_bool true b = b
same_bool false true = false
same_bool false false = true

-- The equality of lengths, then of the numbers at every index.
unfoldable pub same_port_ids : List ℕ → List ℕ → Bool
same_port_ids [] [] = true
same_port_ids (a ∷ ids) (b ∷ others) = a == b && same_port_ids ids others
same_port_ids _ _ = false

unfoldable pub same_port : Port → Port → Bool
unfolding same_decimal
same_port port other =
    port.id == other.id
    && same_status port.status other.status
    && same_decimal port.power_kw other.power_kw
    && same_decimal port.energy_kwh other.energy_kwh
    && str_eq port.updated_at other.updated_at
    && same_text port.started_at other.started_at
    && port.session_min == other.session_min
    && port.used_seconds == other.used_seconds
    && same_text port.used_text other.used_text
    && same_text port.remaining_text other.remaining_text

unfoldable pub same_ports : List Port → List Port → Bool
unfolding same_port
same_ports [] [] = true
same_ports (port ∷ ports) (other ∷ others) = same_port port other && same_ports ports others
same_ports _ _ = false

unfoldable pub same_pile : Pile → Pile → Bool
unfolding same_port_ids same_ports
same_pile a b =
    str_eq a.id b.id
    && str_eq a.number b.number
    && str_eq a.name b.name
    && str_eq a.status b.status
    && str_eq a.address b.address
    && a.open_num == b.open_num
    && same_bool a.online b.online
    && str_eq a.created_at b.created_at
    && str_eq a.updated_at b.updated_at
    && str_eq a.source b.source
    && same_order a.sort_order b.sort_order
    && same_port_ids a.used_port_ids b.used_port_ids
    && same_ports a.ports b.ports
