-- ===== src/Packet/Window.antt =====
-- `PktNumWindow` and `PktNumSpace` of src/packet.rs: what a receiver remembers of each offset, and
-- how many more times it asks for one that has not arrived.
pub mod Retries
use dmludp.Prelude.{
  ℕ, ◌-◌, ◌%◌, ◌==◌, Bool, true, false, if◌then◌else◌, Option, some, none, List, [], add64, ◌>>=◌,
}
use dmludp.Prelude.Maps.{lookup, hash_insert, contains_key}

-- `record`, a map from offsets to `[retrans, received]`, is `records` here.
pub record PktNumWindow : Type 0 where
  pub priority_record : List (ℕ × ℕ)
  pub records : List (ℕ × (ℕ × ℕ))

pub record PktNumSpace : Type 0 where
  pub next_pkt_num : ℕ
  pub recv_pkt_num : PktNumWindow

-- `PktNumWindow::default()`
abbrev pub default_window : PktNumWindow
default_window = record { priority_record = []; records = [] }

-- `PktNumSpace::new`
abbrev pub new_space : PktNumSpace
new_space = record { next_pkt_num = 0; recv_pkt_num = default_window }

unfoldable pub update_retrans : PktNumWindow → ℕ → ℕ → ℕ → PktNumWindow
update_retrans w offset retrans received = record w {
  records = hash_insert offset (retrans, received) w.records;
}

-- the `if offset%1024 == 0 { … }` that `additem` and `update_item` begin with
unfoldable pub record_priority : PktNumWindow → ℕ → ℕ → PktNumWindow
record_priority w offset priority =
    if offset % 1024 == 0
    then record w { priority_record = hash_insert offset priority w.priority_record }
    else w

unfoldable pub additem : PktNumWindow → ℕ → ℕ → PktNumWindow
unfolding update_retrans record_priority
additem w offset priority = update_retrans (record_priority w offset priority) offset priority 1

unfoldable pub update_item : PktNumWindow → ℕ → ℕ → PktNumWindow
unfolding update_retrans record_priority
update_item w offset priority = update_retrans (record_priority w offset priority) offset priority 1

unfoldable pub get_priority : PktNumWindow → ℕ → ℕ
get_priority w offset = elim (lookup offset w.priority_record) [ some p ↦ p | none ↦ 0 ]

-- the three branches of `check_received` under `sent == false`
unfoldable pub ask_again : PktNumWindow → ℕ → Option (ℕ × ℕ) → Bool × PktNumWindow
unfolding update_retrans get_priority additem
ask_again w offset (some (retrans, received)) =
    if received == 1
    then (true, w)
    else if retrans == 0
    then (false, update_retrans w offset 0 1)
    else (false, update_retrans w offset (retrans - 1) received)
ask_again w offset none =
    let base = offset - offset % 1024 in
    let priority = get_priority w base in
    if priority == 0
    then (false, update_retrans (additem w base 3) offset 2 0)
    else (false, update_retrans w offset (priority - 1) 0)

-- the branches under `sent == true`
unfoldable pub was_received : Option (ℕ × ℕ) → Bool
was_received (some (retrans, received)) = received == 1
was_received none = false

-- Returns whether the offset counts as received, and the new window.
unfoldable pub check_received : PktNumWindow → ℕ → Bool → Bool × PktNumWindow
unfolding ask_again was_received
check_received w offset sent =
    if sent
    then (was_received (lookup offset w.records), w)
    else ask_again w offset (lookup offset w.records)

-- `retrans + 1` panics at the largest u64.
unfoldable pub get_retrans_times : PktNumWindow → ℕ → Option ℕ
get_retrans_times w offset = elim (lookup offset w.records) [
  | none ↦ some 0
  | some (retrans, received) ↦ if received == 1 then some 0 else add64 retrans 1
]

unfoldable pub clear_record : PktNumWindow → PktNumWindow
clear_record w = record w { records = [] }
