-- ===== src/Fault.antt =====
-- Go errors, as values: the errors that the program's own code makes or tells apart, and the
-- classifiers of internal/sync/retry.go and internal/sync/retrying_client.go over them.
-- `errors.As` walks an error and what it wraps, the first branch of a joined error first.
use calendar_bridge.Base.{
  ℕ, String, Bool, true, false, ◌&&◌, ◌||◌, Option, none, some, leb, eqb, if◌then◌else◌,
}

pub data Fault : Type 0 where
  -- `*googleapi.Error` with its status code.
  api : ℕ → Fault
  -- `*net.DNSError` with `IsTemporary` and what `Timeout()` answers.
  dns : Bool → Bool → Fault
  -- Another `net.Error` with what `Timeout()` answers, and the error that it wraps.
  net : Bool → Fault → Fault
  canceled : Fault
  deadline_exceeded : Fault
  -- `ErrNotOwned`
  not_owned : Fault
  message : String → Fault
  too_few_healthy : ℕ → Fault
  -- `fmt.Errorf("…: %w", err)`
  wrapped : String → Fault → Fault
  -- `errors.Join` of two errors
  joined : Fault → Fault → Fault
  -- `fs.ErrNotExist`
  not_exist : Fault
  -- The errors of googleauth.go that say why a token cannot be used.
  needs_auth token_unreadable token_inaccessible : Fault
  -- `*fs.PathError` on a path, and `*os.LinkError` on two.
  path_error : String → Fault → Fault
  link_error : String → String → Fault → Fault
  -- `*ambiguousInsertError`, which unwraps to neither of its errors.
  ambiguous_insert : Fault → Fault → Fault

abbrev first : {A : Type 0} → Option A → Option A → Option A
first (some a) o = some a
first none o = o

-- `errors.As(err, &apiErr)`: the code of the first API error.
unfoldable pub as_api : Fault → Option ℕ
as_api (api code) = some code
as_api (net timeout e) = as_api e
as_api (wrapped text e) = as_api e
as_api (path_error path e) = as_api e
as_api (link_error old new e) = as_api e
as_api (joined e f) = first (as_api e) (as_api f)
as_api _ = none

-- `errors.As(err, &dnsErr)`: the first DNS error's `IsTemporary`.
unfoldable pub as_dns : Fault → Option Bool
as_dns (dns temporary timeout) = some temporary
as_dns (net timeout e) = as_dns e
as_dns (wrapped text e) = as_dns e
as_dns (path_error path e) = as_dns e
as_dns (link_error old new e) = as_dns e
as_dns (joined e f) = first (as_dns e) (as_dns f)
as_dns _ = none

-- `errors.As(err, &netErr)`: what the first network error's `Timeout()` answers. A DNS error and
-- `context.DeadlineExceeded` are network errors too.
unfoldable pub as_net : Fault → Option Bool
as_net (dns temporary timeout) = some timeout
as_net (net timeout e) = some timeout
as_net deadline_exceeded = some true
as_net (wrapped text e) = as_net e
as_net (path_error path e) = as_net e
as_net (link_error old new e) = as_net e
as_net (joined e f) = first (as_net e) (as_net f)
as_net _ = none

abbrev holds : Option Bool → Bool
holds (some b) = b
holds none = false

-- `isTransient`, of an error that is not nil.
unfoldable pub is_transient : Fault → Bool
is_transient e = elim (as_api e) [
  | some code ↦ if eqb code 429 then true else leb 500 code && leb code 599
  | none ↦ if holds (as_dns e) then true else holds (as_net e)
]

-- `isAmbiguous`, of an error that is not nil.
unfoldable pub is_ambiguous : Fault → Bool
is_ambiguous e = elim (as_api e) [
  | some code ↦ false
  | none ↦ if holds (as_dns e) then true else holds (as_net e)
]

abbrev has_code : ℕ → Option ℕ → Bool
has_code c (some code) = eqb code c
has_code c none = false

-- `isGone`, of an error that is not nil.
unfoldable pub is_gone : Fault → Bool
is_gone e = has_code 404 (as_api e) || has_code 410 (as_api e)

-- The test for a failed `If-Match` in `UpdateBlock` and `DeleteBlock`.
unfoldable pub is_precondition_failed : Fault → Bool
is_precondition_failed e = has_code 412 (as_api e)

-- The test for a 404 in `GetEvent` of internal/sync/client.go.
unfoldable pub is_not_found : Fault → Bool
is_not_found e = has_code 404 (as_api e)

-- `errors.Is`, of a test for the error that is looked for.
unfoldable pub errors_is : (Fault → Bool) → Fault → Bool
errors_is p (net timeout e) = p (net timeout e) || errors_is p e
errors_is p (path_error path e) = p (path_error path e) || errors_is p e
errors_is p (link_error old new e) = p (link_error old new e) || errors_is p e
errors_is p (wrapped text e) = p (wrapped text e) || errors_is p e
errors_is p (joined e f) = p (joined e f) || errors_is p e || errors_is p f
errors_is p e = p e

abbrev pub is_canceled : Fault → Bool
is_canceled canceled = true
is_canceled _ = false

abbrev pub is_not_exist : Fault → Bool
is_not_exist not_exist = true
is_not_exist _ = false

abbrev pub is_needs_auth : Fault → Bool
is_needs_auth needs_auth = true
is_needs_auth _ = false

abbrev pub is_token_unreadable : Fault → Bool
is_token_unreadable token_unreadable = true
is_token_unreadable _ = false

abbrev pub is_token_inaccessible : Fault → Bool
is_token_inaccessible token_inaccessible = true
is_token_inaccessible _ = false
