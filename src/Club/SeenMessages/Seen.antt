-- ===== src/Club/SeenMessages/Seen.antt =====
-- What `is_in` of src/club/seen_messages.h says after each operation.
use libclub.Prelude.{
  ℕ, ◌≡◌, refl, ◌∙◌, Bool, false, ◌||◌, ◌&&◌, not, List, [], ◌∷◌, some, ltb, leb, ◌==◌, arith,
}
use libclub.Club.MessageId.{MessageId, eq}
use libclub.Club.SeenMessages.{
  TimeStamps, SeenMessages, count, insert_stamp, erase_up_to, insert_into, no_stamps, insert, find,
  has, is_in, raise_bottom, seen_everything_up_to, forget_messages_from_user,
}

count-insert_stamp : (x y : ℕ) (l : List ℕ) → count (insert_stamp x l) y ≡ (x == y || count l y)
count-insert_stamp x y l = ground arith

count-erase_up_to : (x y : ℕ) (l : List ℕ) → count (erase_up_to x l) y ≡ (count l y && ltb x y)
count-erase_up_to x y [] = refl
count-erase_up_to x y (z ∷ l) = ground (arith, count-erase_up_to x y l)

has-insert_into :
    (tss : TimeStamps) (ts x : ℕ)
    → has (some (insert_into tss ts)) x ≡ (ts == x || has (some tss) x)
unfolding has insert_into
has-insert_into tss ts x = ground (arith, count-insert_stamp ts x tss.stamps)

has_nothing : (x : ℕ) → has (some no_stamps) x ≡ false
unfolding has
has_nothing x = refl

has-raise_bottom :
    (tss : TimeStamps) (ts x : ℕ)
    → has (some (raise_bottom ts tss)) x ≡ (leb x ts || has (some tss) x)
unfolding has raise_bottom
has-raise_bottom tss ts x = ground (arith, count-erase_up_to ts x tss.stamps)

find-insert :
    (s : SeenMessages) (mid : MessageId) (uid : ℕ)
    → (x : ℕ)
    → has (find (insert s mid) uid) x
      ≡ ((mid.original_poster == uid && mid.timestamp == x) || has (find s uid) x)
unfolding find insert has
find-insert [] mid uid x = ground (arith, has-insert_into no_stamps mid.timestamp x, has_nothing x)
find-insert ((user, tss) ∷ rest) mid uid x =
    ground (arith, has-insert_into tss mid.timestamp x, find-insert rest mid uid x)

-- After `insert` the messages that count as seen are those that did before, and the one inserted.
pub is_in-insert :
    (s : SeenMessages) (mid x : MessageId) → is_in (insert s mid) x ≡ (eq mid x || is_in s x)
unfolding is_in eq
is_in-insert s mid x = find-insert s mid x.original_poster x.timestamp ∙ ground arith

-- A user has an entry.
pub knows : SeenMessages → ℕ → Bool
knows [] uid = false
knows ((user, tss) ∷ rest) uid = user == uid || knows rest uid

-- After `seen_everything_up_to` the messages that count as seen are those that did before, and
-- those of every user with an entry whose time stamp is not above the given one.
pub is_in-seen_everything_up_to :
    (s : SeenMessages) (mid x : MessageId)
    → is_in (seen_everything_up_to s mid) x
      ≡ ((knows s x.original_poster && leb x.timestamp mid.timestamp) || is_in s x)
unfolding is_in find seen_everything_up_to knows
is_in-seen_everything_up_to [] mid x = refl
is_in-seen_everything_up_to ((user, tss) ∷ rest) mid x =
    ground (
      arith,
      has-raise_bottom tss mid.timestamp x.timestamp,
      is_in-seen_everything_up_to rest mid x,
    )

-- After `forget_messages_from_user` no message of that user counts as seen, and each of the others
-- as before.
pub is_in-forget_messages_from_user :
    (s : SeenMessages) (uid : ℕ) (x : MessageId)
    → is_in (forget_messages_from_user s uid) x ≡ (not (x.original_poster == uid) && is_in s x)
unfolding is_in find forget_messages_from_user has
is_in-forget_messages_from_user [] uid x = ground arith
is_in-forget_messages_from_user ((user, tss) ∷ rest) uid x =
    ground (arith, is_in-forget_messages_from_user rest uid x)
