-- ===== src/Club/SeenMessages.antt =====
-- src/club/seen_messages.h: which messages were seen. The maps and sets are lists: no operation
-- depends on the order of their items.
pub mod Seen
mod Tests
use libclub.Prelude.{
  ℕ, Bool, true, false, ◌||◌, not, List, [], ◌∷◌, Option, none, some, ltb, leb, ◌==◌, if◌then◌else◌,
  map,
}
use libclub.Club.MessageId.{MessageId, Uuid, TimeStamp}

-- Everything up to `bottom` counts as being in the set.
pub record TimeStamps : Type 0 where
  pub stamps : List TimeStamp
  pub bottom : Option TimeStamp

abbrev pub SeenMessages : Type 0
SeenMessages = List (Uuid × TimeStamps)

-- `count` and `insert` of std::set
abbrev pub count : List ℕ → ℕ → Bool
count [] x = false
count (y ∷ ys) x = y == x || count ys x

abbrev pub insert_stamp : ℕ → List ℕ → List ℕ
insert_stamp x l = if count l x then l else x ∷ l

-- `erase(begin(), upper_bound(x))`
abbrev pub erase_up_to : ℕ → List ℕ → List ℕ
erase_up_to x [] = []
erase_up_to x (y ∷ ys) = let rest = erase_up_to x ys in if leb y x then rest else y ∷ rest

-- `tss.bottom && ts <= *tss.bottom`
abbrev pub below_bottom : TimeStamps → TimeStamp → Bool
below_bottom tss ts = elim tss.bottom [ none ↦ false | some bottom ↦ leb ts bottom ]

pub insert_into : TimeStamps → TimeStamp → TimeStamps
insert_into tss ts =
    if below_bottom tss ts then tss else record tss { stamps = insert_stamp ts tss.stamps }

abbrev pub no_stamps : TimeStamps
no_stamps = record { stamps = []; bottom = none }

-- `_messages[mid.original_poster]` makes an entry where there is none.
pub insert : SeenMessages → MessageId → SeenMessages
insert [] mid = (mid.original_poster, insert_into no_stamps mid.timestamp) ∷ []
insert ((user, tss) ∷ rest) mid =
    let later = insert rest mid in
    if user == mid.original_poster
    then (user, insert_into tss mid.timestamp) ∷ rest
    else (user, tss) ∷ later

pub find : SeenMessages → Uuid → Option TimeStamps
find [] uid = none
find ((user, tss) ∷ rest) uid = let later = find rest uid in if user == uid then some tss else later

-- The answer for the time stamps that were found.
pub has : Option TimeStamps → TimeStamp → Bool
has none ts = false
has (some tss) ts = if below_bottom tss ts then true else count tss.stamps ts

pub is_in : SeenMessages → MessageId → Bool
is_in s mid = has (find s mid.original_poster) mid.timestamp

-- The body of the loop of `seen_everything_up_to`.
pub raise_bottom : TimeStamp → TimeStamps → TimeStamps
raise_bottom ts tss =
    if below_bottom tss ts
    then tss
    else record { bottom = some ts; stamps = erase_up_to ts tss.stamps }

pub seen_everything_up_to : SeenMessages → MessageId → SeenMessages
seen_everything_up_to [] mid = []
seen_everything_up_to ((user, tss) ∷ rest) mid =
    (user, raise_bottom mid.timestamp tss) ∷ seen_everything_up_to rest mid

pub forget_messages_from_user : SeenMessages → Uuid → SeenMessages
forget_messages_from_user [] uid = []
forget_messages_from_user ((user, tss) ∷ rest) uid =
    let later = forget_messages_from_user rest uid in
    if user == uid then later else (user, tss) ∷ later
