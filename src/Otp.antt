-- ===== src/Otp.antt =====
-- internal/plugins/api_server/server/auth_cache.go: one-time codes in a bounded LRU cache.
-- The map's pointer to a list element is the element whose entry has the key as its identifier.
pub mod Lists
pub mod Invariant
pub mod Sweep
pub mod Valid
pub mod Limits
pub mod Guesses
pub mod Lost
pub mod Owned
pub mod Races
use xraytool_go.Prelude.{
  ◌==◌, ℕ, ◌+◌, ◌-◌, suc, Bool, true, false, not, Option, none, some, List, [], ◌∷◌, String, first,
  exists, keep, length, ltb, leb, str_eq, if◌then◌else◌,
}
use xraytool_go.Prelude.Int.{ℤ, pos, negsuc}

-- An element of the list: its pointer to an entry, and the identifier that the entry was made with,
-- which is never written.
pub record OtpElement : Type 0 where
  pub identifier : String
  pub ref : ℕ

-- An entry; its own mutex guards all but the identifier.
pub record OtpEntry : Type 0 where
  pub identifier : String
  pub payload : String
  -- nil until the first code
  pub code_hmac : Option String
  -- 0 is the zero instant
  pub expires_at : ℕ
  pub attempts : ℕ
  pub request_count : ℕ

pub record OtpLruCache : Type 0 where
  pub max_size : ℕ
  -- the keys of the map
  pub items : List String
  -- front = most recently used
  pub order : List OtpElement

-- The cache with the entries behind the pointers. An entry that has left the cache lives on while
-- a call holds it. No pointer from `next` on has been used.
pub record OtpState : Type 0 where
  pub cache : OtpLruCache
  pub entries : ℕ → OtpEntry
  pub next : ℕ

pub data OtpError : Type 0 where
  max_requests_reached max_attempts_reached : OtpError

abbrev pub new_otp_lru_cache : ℕ → OtpLruCache
new_otp_lru_cache max_size = record { max_size = max_size; items = []; order = [] }

abbrev pub is_for : String → OtpElement → Bool
is_for identifier e = str_eq e.identifier identifier

abbrev pub has_key : String → List String → Bool
has_key identifier items = exists (str_eq identifier) items

abbrev pub without_key : String → List String → List String
without_key identifier items = keep (λ k. not (str_eq identifier k)) items

-- The entry that the map has for an identifier.
abbrev pub find : String → OtpLruCache → Option OtpElement
find identifier c = if has_key identifier c.items then first (is_for identifier) c.order else none

-- `order.Remove(el)`
abbrev pub removed : String → List OtpElement → List OtpElement
removed identifier order = keep (λ e. not (is_for identifier e)) order

-- `order.MoveToFront(el)`
abbrev pub touch : OtpElement → OtpLruCache → OtpLruCache
touch e c = record c { order = e ∷ removed e.identifier c.order }

abbrev touch_found : Option OtpElement → OtpLruCache → OtpLruCache
touch_found none c = c
touch_found (some e) c = touch e c

unfoldable pub get : String → OtpLruCache → Option OtpElement × OtpLruCache
get identifier c = (find identifier c, touch_found (find identifier c) c)

-- `order.Back()`, and the list without it
abbrev pub last : List OtpElement → Option OtpElement
last [] = none
last (e ∷ []) = some e
last (_ ∷ e ∷ es) = last (e ∷ es)

abbrev pub drop_last : List OtpElement → List OtpElement
drop_last [] = []
drop_last (_ ∷ []) = []
drop_last (d ∷ e ∷ es) = d ∷ drop_last (e ∷ es)

abbrev pub evict_last : Option OtpElement → OtpLruCache → OtpLruCache
evict_last none c = c
evict_last (some e) c = record c {
  order = drop_last c.order;
  items = without_key e.identifier c.items;
}

unfoldable pub evict : OtpLruCache → OtpLruCache
evict c = if leb c.max_size (length c.order) then evict_last (last c.order) c else c

abbrev pub new_entry : String → OtpEntry
new_entry identifier = record {
  identifier = identifier;
  payload = "";
  code_hmac = none;
  expires_at = 0;
  attempts = 0;
  request_count = 0;
}

abbrev pub push : OtpElement → OtpLruCache → OtpLruCache
push e c = record c { order = e ∷ c.order; items = e.identifier ∷ c.items }

-- `ref` is the pointer of the entry that is made if there is none.
abbrev pub create_missing : String → ℕ → Option OtpElement → OtpLruCache → OtpElement × OtpLruCache
create_missing identifier ref (some e) c = (e, touch e c)
create_missing identifier ref none c =
    let made : OtpElement = record { identifier = identifier; ref = ref } in
    (made, push made (evict c))

unfoldable pub get_or_create : String → ℕ → OtpLruCache → OtpElement × OtpLruCache
get_or_create identifier ref c = create_missing identifier ref (find identifier c) c

unfoldable pub delete : String → OtpLruCache → OtpLruCache
delete identifier c =
    if has_key identifier c.items
    then record c { order = removed identifier c.order; items = without_key identifier c.items }
    else c

-- From the back to the front: the elements that stay, and the keys that are left.
abbrev pub sweep :
    (ℕ → OtpEntry) → ℕ → List OtpElement → List String → List OtpElement × List String
sweep entries now [] items = ([], items)
sweep entries now (e ∷ es) items =
    let (kept, keys) = sweep entries now es items in
    if ltb (entries e.ref).expires_at now
    then (kept, without_key e.identifier keys)
    else (e ∷ kept, keys)

unfoldable pub sweep_expired : ℕ → OtpState → OtpState
sweep_expired now s =
    let (kept, keys) = sweep s.entries now s.cache.order s.cache.items in
    record s { cache = record s.cache { order = kept; items = keys } }

-- A write through a pointer.
abbrev pub written : ℕ → OtpEntry → (ℕ → OtpEntry) → ℕ → OtpEntry
written ref e entries k = if k == ref then e else entries k

-- `now.Add(ttl)`
abbrev pub later : ℕ → ℤ → ℕ
later now (pos d) = now + d
later now (negsuc d) = now - suc d

-- The counters start again when the last code has expired.
abbrev pub refreshed : ℕ → OtpEntry → OtpEntry
refreshed now e = if ltb e.expires_at now then record e { attempts = 0; request_count = 0 } else e

abbrev pub issued : (String → String) → ℕ → ℤ → String → String → OtpEntry → OtpEntry
issued mac now ttl code payload e = record e {
  payload = payload;
  code_hmac = some (mac code);
  expires_at = later now ttl;
  request_count = suc e.request_count;
}

-- A request under the cache's mutex: the pointer that it goes on with. The pointer `next` counts
-- as used even when the entry was there.
unfoldable pub hold : String → OtpState → ℕ × OtpState
hold identifier s =
    let (e, c) = get_or_create identifier s.next s.cache in
    (
      e.ref,
      record {
        cache = c;
        entries = written s.next (new_entry identifier) s.entries;
        next = suc s.next;
      },
    )

-- A request under the mutex of the entry that it holds: an error, or the code `code` that the
-- generator made. `mac` is the HMAC of the process.
unfoldable pub issue :
    (String → String) → ℕ → ℤ → String → String → ℕ → OtpState → Option OtpError × OtpState
issue mac now ttl code payload ref s =
    let e = refreshed now (s.entries ref) in
    if leb 2 e.request_count
    then (some max_requests_reached, record s { entries = written ref e s.entries })
    else (none, record s { entries = written ref (issued mac now ttl code payload e) s.entries })

-- A request that no other call comes between: the two parts in a row.
unfoldable pub request_otp :
    (String → String) → ℕ → ℤ → String → String → String → OtpState → Option OtpError × OtpState
request_otp mac now ttl code identifier payload s =
    let (ref, after) = hold identifier s in issue mac now ttl code payload ref after

-- hmac.Equal
abbrev pub hmac_equal : Option String → String → Bool
hmac_equal none m = false
hmac_equal (some k) m = str_eq k m

-- What a verification knows when it leaves the entry: the code has expired, it is right and has
-- this payload, or it is wrong and this is the number of wrong attempts.
pub data Check : Type 0 where
  expired : Check
  right : String → Check
  wrong : ℕ → Check

abbrev ref_of : Option OtpElement → Option ℕ
ref_of none = none
ref_of (some e) = some e.ref

-- A verification under the cache's mutex.
unfoldable pub look_up : String → OtpState → Option ℕ × OtpState
look_up identifier s = let (e, c) = get identifier s.cache in (ref_of e, record s { cache = c })

-- A verification under the mutex of the entry that it holds.
unfoldable pub check : (String → String) → ℕ → String → ℕ → OtpState → Check × OtpState
check mac now code ref s =
    let e = s.entries ref in
    if ltb e.expires_at now
    then (expired, s)
    else (if hmac_equal e.code_hmac (mac code) then (right e.payload, s) else (
      wrong (suc e.attempts),
      record s { entries = written ref (record e { attempts = suc e.attempts }) s.entries },
    ))

unfoldable pub drop : String → OtpState → OtpState
drop identifier s = record s { cache = delete identifier s.cache }

pub record Verdict : Type 0 where
  pub accepted : Bool
  pub payload : String
  pub error : Option OtpError
  pub state : OtpState

abbrev pub rejected : Option OtpError → OtpState → Verdict
rejected error s = record { accepted = false; payload = ""; error = error; state = s }

-- The rest of a verification, under the cache's mutex where it deletes.
unfoldable pub finish : String → Check → OtpState → Verdict
finish identifier expired s = rejected none (drop identifier s)
finish identifier (right payload) s = record {
  accepted = true;
  payload = payload;
  error = none;
  state = drop identifier s;
}
finish identifier (wrong attempts) s =
    if leb 3 attempts
    then rejected (some max_attempts_reached) (drop identifier s)
    else rejected none s

abbrev pub verify_found : (String → String) → ℕ → String → String → Option ℕ → OtpState → Verdict
verify_found mac now identifier code none s = rejected none s
verify_found mac now identifier code (some ref) s =
    let (result, after) = check mac now code ref s in finish identifier result after

-- A verification that no other call comes between: its parts in a row.
unfoldable pub verify_otp : (String → String) → ℕ → String → String → OtpState → Verdict
verify_otp mac now identifier code s =
    let (ref, after) = look_up identifier s in verify_found mac now identifier code ref after

-- Before the first call.
abbrev pub start : ℕ → OtpState
start max_size = record {
  cache = new_otp_lru_cache max_size;
  entries = λ ref. new_entry "";
  next = 0;
}

-- One critical section of some call: a run of these is any interleaving of calls, each of which
-- goes through its sections in their order. A sweep reads all entries at one moment.
pub data Step (mac : String → String) : OtpState → OtpState → Type 0 where
  holds : (identifier : String) (s : OtpState) → Step mac s (hold identifier s).1
  issues :
      (now : ℕ) (ttl : ℤ) (code payload : String) (ref : ℕ) (s : OtpState)
      → Step mac s (issue mac now ttl code payload ref s).1
  looks_up : (identifier : String) (s : OtpState) → Step mac s (look_up identifier s).1
  checks :
      (now : ℕ) (code : String) (ref : ℕ) (s : OtpState) → Step mac s (check mac now code ref s).1
  drops : (identifier : String) (s : OtpState) → Step mac s (drop identifier s)
  sweeps : (now : ℕ) (s : OtpState) → Step mac s (sweep_expired now s)

pub data Reach (mac : String → String) : OtpState → OtpState → Type 0 where
  here : {s : OtpState} → Reach mac s s
  next : {s t u : OtpState} → Step mac s t → Reach mac t u → Reach mac s u
