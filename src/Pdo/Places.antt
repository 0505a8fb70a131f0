-- ===== src/Pdo/Places.antt =====
-- stack/CO_PDO.c: the bytes that the map pointers point to, as the source reads and writes them.
use canopen_node.Pdo.{Place, dummy, od_byte}
use canopen_node.Sdo.{
  Storage, domain, variable, members, Entry, Pointer, null, at_offset, at_max_sub_index, at_member,
}
use canopen_node.Sdo.Access.{stored}
use canopen_node.Sdo.Od.{entry_at, no_member}
use canopen_node.Prelude.{
  ℕ, ◌+◌, List, [], ◌∷◌, Option, none, some, ◌==◌, if◌then◌else◌, get_or, set,
}

abbrev pub put_bytes : Option (List ℕ) → ℕ → ℕ → Option (List ℕ)
put_bytes none k b = none
put_bytes (some bytes) k b = some (set bytes k b)

-- The byte `k` of a variable is written.
abbrev pub put_variable : Storage → ℕ → ℕ → Storage
put_variable domain k b = domain
put_variable (variable bytes) k b = variable (set bytes k b)
put_variable (members ms) k b = members ms

-- The byte `k` of a member is written.
abbrev pub put_member : Storage → ℕ → ℕ → ℕ → Storage
put_member domain i k b = domain
put_member (variable bytes) i k b = variable bytes
put_member (members ms) i k b =
    let m = get_or ms i no_member in members (set ms i (record m { pdata = put_bytes m.pdata k b }))

-- A byte of an entry is written, at an offset from where the pointer points.
abbrev pub put_byte : Entry → Pointer → ℕ → ℕ → Entry
put_byte object null k b = object
put_byte object (at_offset n) k b = record object { pdata = put_variable object.pdata (n + k) b }
put_byte object at_max_sub_index k b = record object {
  max_sub_index = if k == 0 then b else object.max_sub_index;
}
put_byte object (at_member i) k b = record object { pdata = put_member object.pdata i k b }

-- `*pointer = b`. What is written to the dummy of received PDOs is never read.
abbrev pub write_place : List Entry → Place → ℕ → List Entry
write_place od dummy b = od
write_place od (od_byte e p k) b = set od e (put_byte (entry_at od e) p k b)

-- `*pointer`. The dummy of transmitted PDOs is 0.
abbrev pub read_place : List Entry → Place → ℕ
read_place od dummy = 0
read_place od (od_byte e p k) = get_or (stored (entry_at od e) p) k 0

-- `**(ppODdataByte++) = *(pPDOdataByte++);` for each of the pointers
abbrev pub write_all : List Entry → List Place → List ℕ → List Entry
write_all od [] bytes = od
write_all od (p ∷ ps) [] = od
write_all od (p ∷ ps) (b ∷ bytes) = write_all (write_place od p b) ps bytes

-- `*(pPDOdataByte++) = **(ppODdataByte++);` for each of the pointers
abbrev pub read_all : List Entry → List Place → List ℕ
read_all od [] = []
read_all od (p ∷ ps) = read_place od p ∷ read_all od ps
