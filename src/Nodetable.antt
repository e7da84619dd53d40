-- ===== src/Nodetable.antt =====
-- internal/nodetable/nodetable.go: the table of frames seen, for duplicate detection.
pub mod Keys
pub mod Size
pub mod Oldest
pub mod Lookup
use prp_sim.Base.{
  remove_where, ℕ, zero, suc, ◌+◌, ◌*◌, ◌/◌, ◌%◌, Bool, true, false, ◌&&◌, ◌||◌, Option, none, some,
  List, [], ◌∷◌, ◌++◌, ltb, if◌then◌else◌, length, Text, text_eq, lookup, insert, delete,
}

-- The decimal digits of `%d`, with the number itself as fuel.
unfoldable pub decimal_loop : ℕ → ℕ → Text
decimal_loop zero n = (b'0' + n % 10) ∷ []
decimal_loop (suc fuel) n =
    let front = decimal_loop fuel (n / 10) in
    if ltb n 10 then (b'0' + n % 10) ∷ [] else front ++ ((b'0' + n % 10) ∷ [])

unfoldable pub decimal : ℕ → Text
unfolding decimal_loop
decimal n = decimal_loop n n

-- `fmt.Sprintf("%s|%d", srcMAC, seq)`
unfoldable pub key : Text → ℕ → Text
key mac seq = mac ++ (b'|' ∷ decimal seq)

-- Times are nanoseconds.
pub record Entry : Type 0 where
  pub src_mac : Text
  pub seq_no : ℕ
  pub lan_id : ℕ
  pub last_seen : ℕ
  pub expiry_ms : ℕ

abbrev pub Entries : Type 0
Entries = List (Text × Entry)

pub record Table : Type 0 where
  pub entries : Entries
  pub max_size : ℕ

unfoldable pub new_table : ℕ → Table
new_table max_size = record { entries = []; max_size = max_size }

abbrev pub millisecond : ℕ
millisecond = 1_000_000

-- `now.Sub(e.LastSeen) > time.Duration(e.ExpiryMs)*time.Millisecond`
unfoldable pub is_expired : ℕ → Entry → Bool
is_expired now e = ltb (e.last_seen + e.expiry_ms * millisecond) now

-- The search for the oldest entry, over the entries in the order in which `range` gives them.
unfoldable pub oldest_loop : Entries → Text → ℕ → Text
oldest_loop [] oldest_key oldest = oldest_key
oldest_loop ((k, e) ∷ rest) oldest_key oldest =
    let take_it = text_eq oldest_key [] || ltb e.last_seen oldest in
    oldest_loop rest (if take_it then k else oldest_key) (if take_it then e.last_seen else oldest)

-- `order` lists a map in the order in which Go's `range` visits it, which the language leaves open.
unfoldable pub insert_with_expiry : (Entries → Entries) → ℕ → Table → Text → ℕ → ℕ → ℕ → Table
insert_with_expiry order now t mac seq lan_id expiry_ms =
    let entry : Entry = record {
      src_mac = mac;
      seq_no = seq;
      lan_id = lan_id;
      last_seen = now;
      expiry_ms = expiry_ms;
    } in
    let entries : Entries = insert (key mac seq) entry t.entries in
    if ltb 0 t.max_size && ltb t.max_size (length entries)
    then record t { entries = delete (oldest_loop (order entries) [] 0) entries }
    else record t { entries = entries }

unfoldable pub is_live : ℕ → Option Entry → Bool
is_live now none = false
is_live now (some e) = if is_expired now e then false else true

unfoldable pub find : ℕ → Table → Text → ℕ → Bool
unfolding is_live
find now t mac seq = is_live now (lookup (key mac seq) t.entries)

unfoldable pub flush_for : Table → Text → Table × ℕ
flush_for t mac =
    let (kept, removed) = remove_where (λ e. text_eq e.src_mac mac) t.entries in
    (record t { entries = kept }, removed)

unfoldable pub cleanup : ℕ → Table → Table × ℕ
cleanup now t =
    let (kept, removed) = remove_where (is_expired now) t.entries in
    (record t { entries = kept }, removed)

unfoldable pub size : Table → ℕ
size t = length t.entries
