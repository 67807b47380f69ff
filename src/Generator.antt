-- ===== src/Generator.antt =====
-- src/pyscripts/contracts/generator.py: the field numbers of a generated protobuf message,
-- `_assign_numbers`. The fields of a message are objects, by their positions; sets of numbers and
-- names are lists. The origin of a message is left out.
pub mod Sets
pub mod Kept
pub mod Numbers
pub mod Fresh
pub mod Reserved
mod Tests
use Prim.Native.String.{compare}
use Prim.Native.Nat.{Ordering}
use pyscripts.Base.{
  ℕ, zero, suc, ◌+◌, max, Bool, true, false, not, ◌&&◌, ◌||◌, String, Option, none, some, List, [],
  ◌∷◌, ◌++◌, string_eq, nat_eq, ◌==◌, ◌=?◌, ltb, leb, contains, length, if◌then◌else◌,
}
use pyscripts.Base.Dict.{Dict, get, put}
use pyscripts.Base.Result.{Result, ok, err, ◌>>=◌, ◌>>◌, require}

pub record FieldShape : Type 0 where
  pub name : String
  pub type_name : String
  pub repeated : Bool
  pub number : ℕ

pub data Direction : Type 0 where
  request response : Direction

pub record MessageShape : Type 0 where
  pub name : String
  pub direction : Direction
  pub fields : Dict ℕ FieldShape
  pub reserved_numbers : List ℕ
  pub reserved_names : List String

pub record PreviousField : Type 0 where
  pub number : ℕ
  pub type_name : String
  pub repeated : Bool

pub record PreviousMessage : Type 0 where
  pub fields : Dict String PreviousField
  pub reserved_numbers : List ℕ
  pub reserved_names : List String

pub data ProtoGenerationError : Type 0 where
  reused_names : (message : String) → List String → ProtoGenerationError
  exhausted : (message : String) → ProtoGenerationError

-- The message that was not there before.
abbrev pub no_message : PreviousMessage
no_message = record { fields = []; reserved_numbers = []; reserved_names = [] }

abbrev pub previous_of : Option PreviousMessage → PreviousMessage
previous_of none = no_message
previous_of (some p) = p

abbrev pub is_present : Option PreviousMessage → Bool
is_present none = false
is_present (some p) = true

abbrev pub is_request : Direction → Bool
is_request Direction.request = true
is_request Direction.response = false

abbrev pub same_bool : Bool → Bool → Bool
same_bool true b = b
same_bool false b = not b

-- `old.signature == item.signature`
abbrev pub same_signature : PreviousField → FieldShape → Bool
same_signature old item = old.type_name =? item.type_name && same_bool old.repeated item.repeated

pub names_of : Dict ℕ FieldShape → List String
names_of [] = []
names_of ((i, f) ∷ d) = f.name ∷ names_of d

-- `desired_names & reserved_names`
pub forbidden : List String → List String → List String
forbidden reserved [] = []
forbidden reserved (n ∷ ns) =
    let rest = forbidden reserved ns in if contains reserved n then n ∷ rest else rest

abbrev pub no_names : List String → Bool
no_names [] = true
no_names (n ∷ ns) = false

abbrev pub with_number : ℕ → FieldShape → FieldShape
with_number n f = record f { number = n }

abbrev pub keep_from : Option PreviousField → FieldShape → FieldShape
keep_from none f = f
keep_from (some old) f = if same_signature old f then with_number old.number f else f

-- what the first loop makes of the fields
unfoldable pub keep_numbers : Dict String PreviousField → Dict ℕ FieldShape → Dict ℕ FieldShape
keep_numbers previous [] = []
keep_numbers previous ((i, f) ∷ d) =
    (i, keep_from (get previous f.name) f) ∷ keep_numbers previous d

abbrev pub changed_from : Option PreviousField → FieldShape → List ℕ
changed_from none f = []
changed_from (some old) f = if same_signature old f then [] else old.number ∷ []

-- the numbers of the fields whose signature has changed
unfoldable pub changed : Dict String PreviousField → Dict ℕ FieldShape → List ℕ
changed previous [] = []
changed previous ((i, f) ∷ d) = changed_from (get previous f.name) f ++ changed previous d

-- the previous fields that are gone, with their names
unfoldable pub removed : List String → Dict String PreviousField → List (String × ℕ)
removed desired [] = []
removed desired ((n, old) ∷ d) =
    let rest = removed desired d in if contains desired n then rest else (n, old.number) ∷ rest

abbrev pub firsts : List (String × ℕ) → List String
firsts [] = []
firsts ((n, k) ∷ xs) = n ∷ firsts xs

abbrev pub seconds : List (String × ℕ) → List ℕ
seconds [] = []
seconds ((n, k) ∷ xs) = k ∷ seconds xs

-- the numbers that fields have, 0 left out
unfoldable pub numbers_of : Dict ℕ FieldShape → List ℕ
numbers_of [] = []
numbers_of ((i, f) ∷ d) = let rest = numbers_of d in if f.number == 0 then rest else f.number ∷ rest

unfoldable pub previous_numbers : Dict String PreviousField → List ℕ
previous_numbers [] = []
previous_numbers ((n, old) ∷ d) = old.number ∷ previous_numbers d

-- `max(numbers, default=0)`
unfoldable pub greatest : List ℕ → ℕ
greatest [] = 0
greatest (n ∷ ns) = max n (greatest ns)

-- the numbers that protobuf keeps for itself
abbrev pub in_gap : ℕ → Bool
in_gap n = leb 19000 n && leb n 19999

-- the `while` loop; `advance-free` shows that it ends where its test fails, not for want of fuel
unfoldable pub advance : ℕ → List ℕ → ℕ → ℕ
advance zero occupied n = n
advance (suc fuel) occupied n =
    let later = advance fuel occupied (suc n) in
    if contains occupied n || in_gap n then later else n

-- more turns than the gap and the occupied numbers can cause
abbrev pub turns : List ℕ → ℕ
turns occupied = length occupied + 1001

abbrev pub limit : ℕ
limit = 536870911

abbrev pub name_le : FieldShape → FieldShape → Bool
name_le f g = elim (compare f.name g.name) [ Ordering.gt ↦ false | _ ↦ true ]

unfoldable pub insert_field : ℕ → FieldShape → Dict ℕ FieldShape → Dict ℕ FieldShape
insert_field i f [] = (i, f) ∷ []
insert_field i f ((j, g) ∷ d) =
    if name_le f g then (i, f) ∷ (j, g) ∷ d else (j, g) ∷ insert_field i f d

-- `sorted(message.fields, key=lambda field: field.name)`, by positions
unfoldable pub by_name : Dict ℕ FieldShape → Dict ℕ FieldShape
unfolding insert_field
by_name [] = []
by_name ((i, f) ∷ d) = insert_field i f (by_name d)

unfoldable pub positions : Dict ℕ FieldShape → List ℕ
positions [] = []
positions ((i, f) ∷ d) = i ∷ positions d

-- the fields, the occupied numbers, the next number, and whether a field was numbered
abbrev pub Numbering : Type 0
Numbering = Dict ℕ FieldShape × List ℕ × ℕ × Bool

-- the numbering of one field by the next free number
unfoldable pub give_number :
    String → ℕ → FieldShape → ℕ → Numbering → Result ProtoGenerationError Numbering
give_number message i f n (fields, occupied, next, any) =
    if leb n limit
    then ok (put fields i (with_number n f), n ∷ occupied, suc n, true)
    else err (exhausted message)

unfoldable pub number_one :
    String → ℕ → Option FieldShape → Numbering → Result ProtoGenerationError Numbering
unfolding give_number
number_one message i none s = ok s
number_one message i (some f) (fields, occupied, next, any) =
    if not (f.number == 0)
    then ok (fields, occupied, next, any)
    else give_number message i f (advance (turns occupied) occupied next)
        (fields, occupied, next, any)

-- the last loop
unfoldable pub number_all : String → List ℕ → Numbering → Result ProtoGenerationError Numbering
unfolding number_one
number_all message [] s = ok s
number_all message (i ∷ is) s = number_one message i (get s.0 i) s >>= number_all message is

abbrev pub is_none_changed : List ℕ → Bool
is_none_changed [] = true
is_none_changed (n ∷ ns) = false

-- the reserved numbers that the message gets
unfoldable pub reserve : PreviousMessage → Dict ℕ FieldShape → List ℕ
reserve p fields =
    seconds (removed (names_of fields) p.fields) ++ changed p.fields fields ++ p.reserved_numbers

-- what stands before the last loop
unfoldable pub start_numbering : PreviousMessage → Dict ℕ FieldShape → Numbering
start_numbering p fields =
    let kept = keep_numbers p.fields fields in
    let occupied = reserve p fields ++ numbers_of kept ++ previous_numbers p.fields in
    (kept, occupied, suc (greatest occupied), false)

-- the message with its numbers, and whether the change breaks clients
unfoldable pub assign_numbers :
    MessageShape → Option PreviousMessage → Result ProtoGenerationError (MessageShape × Bool)
unfolding forbidden names_of
assign_numbers m previous = do
  let p = previous_of previous
  let gone = removed (names_of m.fields) p.fields
  require (no_names (forbidden p.reserved_names (names_of m.fields)))
      (reused_names m.name (forbidden p.reserved_names (names_of m.fields)))
  s ← number_all m.name (positions (by_name m.fields)) (start_numbering p m.fields)
  ok (
    record m {
      fields = s.0;
      reserved_numbers = reserve p m.fields;
      reserved_names = firsts gone ++ p.reserved_names;
    },
    not (is_none_changed (changed p.fields m.fields))
        || not (no_names (firsts gone))
        || (s.3 && is_present previous && is_request m.direction),
  )
