-- ===== src/EndpointList.antt =====
-- The endpoints and their doubly linked list, from vmi/internal/http_endpoint_pool.go: the struct
-- HttpEndpoint and the methods Insert, Remove, AddToHead and AddToTail of
-- HttpEndpointDoublyLinkedList. A pointer is an address, `none` is nil; `mem` holds the endpoint at
-- every address, since a Go pointer that is not nil can always be read. Each assignment of the
-- source is one update, in the source's order.
pub mod Seg
pub mod Refine
pub mod HeadBug
mod Tests
use Prim.Native.String.{String}
use victoriametrics_importer.Prelude.{ℕ, Bool, Option, none, some, ◌==◌, if◌then◌else◌}
use victoriametrics_importer.Prelude.Int.{ℤ}

abbrev pub Ptr : Type 0
Ptr = ℕ

-- The parsed `URL` is read by the http client only and left out.
pub record Endpoint : Type 0 where
  pub url : String
  pub mark_unhealthy_threshold : ℤ
  pub healthy : Bool
  pub num_errors : ℕ
  pub error_ts : ℕ
  pub prev : Option Ptr
  pub next : Option Ptr

abbrev pub Store : Type 0
Store = Ptr → Endpoint

-- `p.field = ...`
abbrev pub update : Store → Ptr → (Endpoint → Endpoint) → Store
update mem p f q = if p == q then f (mem q) else mem q

pub record Dll : Type 0 where
  pub head : Option Ptr
  pub tail : Option Ptr
  pub mem : Store

abbrev pub set_prev : Option Ptr → Endpoint → Endpoint
set_prev p e = record e { prev = p }

abbrev pub set_next : Option Ptr → Endpoint → Endpoint
set_next p e = record e { next = p }

-- `ep.prev = after` and the first `if` of Insert
insert_links : Ptr → Option Ptr → Dll → Dll
insert_links ep none s =
    let mem = update s.mem ep (set_prev none) in
    record s { mem = update mem ep (set_next s.head); head = some ep }
insert_links ep (some after) s =
    let mem = update s.mem ep (set_prev (some after)) in
    let mem = update mem ep (set_next (mem after).next) in
    record s { mem = update mem after (set_next (some ep)) }

-- `if ep.next == nil`
insert_tail : Ptr → Option Ptr → Dll → Dll
insert_tail ep none s = record s { tail = some ep }
insert_tail ep (some _) s = s

pub insert : Ptr → Option Ptr → Dll → Dll
unfolding insert_links insert_tail
insert ep after s = let s = insert_links ep after s in insert_tail ep (s.mem ep).next s

-- `if ep.prev != nil`
unlink_prev : Option Ptr → Option Ptr → Dll → Dll
unlink_prev (some prev) next s = record s { mem = update s.mem prev (set_next next) }
unlink_prev none next s = record s { head = next }

-- `if ep.next != nil`
unlink_next : Option Ptr → Option Ptr → Dll → Dll
unlink_next (some next) prev s = record s { mem = update s.mem next (set_prev prev) }
unlink_next none prev s = record s { tail = prev }

pub remove : Ptr → Dll → Dll
unfolding unlink_prev unlink_next
remove ep s =
    let s = unlink_prev (s.mem ep).prev (s.mem ep).next s in
    let s = unlink_next (s.mem ep).next (s.mem ep).prev s in
    let mem = update s.mem ep (set_prev none) in record s { mem = update mem ep (set_next none) }

pub add_to_head : Ptr → Dll → Dll
unfolding insert
add_to_head ep s = insert ep none s

pub add_to_tail : Ptr → Dll → Dll
unfolding insert
add_to_tail ep s = insert ep s.tail s
