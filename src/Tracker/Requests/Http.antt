-- ===== src/Tracker/Requests/Http.antt =====
-- core/tracker/scrape_strategy.go: the request of the HTTP strategy.
-- What the HTTP client answers is a parameter, and the query string that is built for it is left
-- out, with it that it is set on the URL that the list of the trackers shares. `log.Fatalf` ends the
-- process as a crash does.
use dawn_torrent.Base.{
  ℕ, ◌≡◌, ◌≢◌, sym, List, [], ◌∷◌, Bytes, Option, none, some, equal_bytes, if◌then◌else◌, arith,
}
use dawn_torrent.Bencode.Parsing.{
  Parsed, returned, crashed, ◌>>=◌, or_crash, returned_before, returned-injective,
}
use dawn_torrent.Bencode.{
  BMap, bmap, BList, blist, Lists, no_lists, list_entry, MapItems, no_map_items, nil_map, map_item,
  lookup,
}
use dawn_torrent.Bencode.Parser.{unmarshall_from_array}
use dawn_torrent.Peer.{Peer}
use dawn_torrent.Swarm.{PeerDict, create_peers_from_http_tracker}

-- `m.Strings[k]`, with whether the key is there.
abbrev string_in : Bytes → BMap → Option Bytes
string_in k (bmap infos strings maps lists key_info) = lookup k strings

find_list : Bytes → Lists → Option BList
find_list k no_lists = none
find_list k (list_entry j l rest) =
    let later = find_list k rest in if equal_bytes j k then some l else later

abbrev list_in : Bytes → BMap → Option BList
list_in k (bmap infos strings maps lists key_info) = find_list k lists

abbrev text_of : Option Bytes → Bytes
text_of none = []
text_of (some s) = s

-- `ip`, `port` and `peer id`, absent ones as the empty text.
abbrev pub peer_dict : BMap → PeerDict
peer_dict m = record {
  ip = text_of (string_in (b'i' ∷ b'p' ∷ []) m);
  port = text_of (string_in (b'p' ∷ b'o' ∷ b'r' ∷ b't' ∷ []) m);
  peer_id = text_of (string_in (b'p' ∷ b'e' ∷ b'e' ∷ b'r' ∷ b' ' ∷ b'i' ∷ b'd' ∷ []) m);
}

-- The dictionaries of a list in order; a nil pointer among them crashes.
peer_dicts : MapItems → List PeerDict → Parsed (List PeerDict)
peer_dicts no_map_items behind = returned behind
peer_dicts (nil_map rest) behind = crashed
peer_dicts (map_item m rest) behind = peer_dicts rest (peer_dict m ∷ behind)

abbrev maps_of : BList → MapItems
maps_of (blist infos strings maps lists key_info) = maps

-- `failure reason` and `peers`.
abbrev pub failure_reason : Bytes
failure_reason =
    b'f' ∷ b'a' ∷ b'i' ∷ b'l' ∷ b'u' ∷ b'r' ∷ b'e' ∷ b' ' ∷ b'r' ∷ b'e' ∷ b'a' ∷ b's' ∷ b'o' ∷ b'n'
    ∷ []

-- A failure reason is logged as fatal; without one the result is nil, and what was parsed is lost.
abbrev no_failure : Option Bytes → Parsed (Option BMap)
no_failure (some reason) = crashed
no_failure none = returned none

-- `execRequest` on the answer's body.
unfoldable pub exec_request : ℕ → Option Bytes → Parsed (Option BMap)
exec_request fuel answer = or_crash answer >>= λ body.
    unmarshall_from_array fuel body >>= λ m. no_failure (string_in failure_reason m)

-- `httpTracker2.handleRequest`: the interval and the peers for `AddNewPeer`.
unfoldable pub handle_http_request : ℕ → Option Bytes → Parsed (ℕ × List Peer)
unfolding exec_request peer_dicts find_list
handle_http_request fuel answer = exec_request fuel answer >>= λ response.
    or_crash response >>= λ m. or_crash (list_in (b'p' ∷ b'e' ∷ b'e' ∷ b'r' ∷ b's' ∷ []) m) >>= λ l.
    peer_dicts (maps_of l) [] >>= λ dicts. returned (0, create_peers_from_http_tracker dicts)

no_failure_nil :
    (reason : Option Bytes) (r : Option BMap) → no_failure reason ≡ returned r → r ≡ none
no_failure_nil none r h = returned-injective r none (sym h)
no_failure_nil (some reason) r h = absurd (ground (arith, h))

exec_request_nil :
    (fuel : ℕ) (answer : Option Bytes) (r : Option BMap)
    → exec_request fuel answer ≡ returned r
    → r ≡ none
unfolding exec_request
exec_request_nil fuel answer r h =
    let (body, got, parsed) = returned_before (or_crash answer) _ r h in
    let (m, read, checked) =
      returned_before (unmarshall_from_array fuel body)
        (λ m. no_failure (string_in failure_reason m)) r parsed in
    no_failure_nil (string_in failure_reason m) r checked

-- No answer of an HTTP tracker, of whatever bytes, ever gives an interval and peers: the request
-- crashes, or its parsing never ends.
pub handle_http_request_never_returns :
    (fuel : ℕ) (answer : Option Bytes) (out : ℕ × List Peer)
    → handle_http_request fuel answer ≢ returned out
unfolding handle_http_request
handle_http_request_never_returns fuel answer out h =
    let (r, done, behind) = returned_before (exec_request fuel answer) _ out h in
    let nil = exec_request_nil fuel answer r done in ground (arith, rw nil at behind)
