-- ===== src/Host.antt =====
-- The host of src/host/host.cpp: reads of a file, options, and the start and stop of services.
-- Loading a shared object is the system's and is left out. What a service's `start()` returns is a
-- parameter.
pub mod Reads
use prfs.Prelude.{
  ℕ, zero, suc, ◌+◌, ◌-◌, min, ltb, leb, List, [], ◌∷◌, ◌++◌, ◌==◌, ◌≡◌, refl, ap, ◌∙◌, Bool, true,
  false, ◌||◌, Option, none, some, if◌then◌else◌, codes, arith,
}
use prfs.Bytes.{Bytes}
use prfs.Kv.{Map, find, put}
use prfs.Di.{Registry, try_resolve, resolve_all}
use prfs.Di.Selection.{provider, content_id}
use prfs.Core.Store.{Store, Handle, content_config}
use prfs.Core.Attrs.{attrs, content_seed}
use prfs.Content.{Buffer, memset}

pub record Host : Type 0 where
  pub fs : Store
  pub registry : Registry
  pub options : Map

abbrev pub or_blank : Option Bytes → Bytes
or_blank none = []
or_blank (some v) = v

unfoldable pub option : Bytes → Host → Bytes
option key h = or_blank (find key h.options)

unfoldable pub set_option : Bytes → Bytes → Host → Host
set_option key value h = record h { options = put key value h.options }

-- `IContentProvider::read` of the provider at an address: the count and the buffer, or `none` where
-- it throws.
abbrev pub ProviderRead : Type 0
ProviderRead = ℕ → Bytes → ℕ → ℕ → ℕ → ℕ → Buffer → Option (ℕ × Buffer)

unfoldable pub read_file :
    ProviderRead → Bytes → Handle → ℕ → ℕ → Buffer → Host → Option (ℕ × Buffer)
read_file generate chosen file off len out h =
    let size = (attrs file h.fs).size in
    let want = min len (size - off) in
    let cp = try_resolve content_id (provider chosen) h.registry in
    if leb size off || len == 0
    then some (0, out)
    else if cp == 0
    then some (want, memset 0 want out)
    else generate cp (content_config h.fs) (content_seed file h.fs) size off len out

abbrev pub service_id : Bytes
service_id = codes "prfs.service/1"

-- The loader's list of started services, the last one at the head.
unfoldable pub start_loop : (ℕ → Bool) → List ℕ → List ℕ → List ℕ
start_loop starts [] started = started
start_loop starts (fe ∷ services) started =
    start_loop starts services (if starts fe then fe ∷ started else started)

unfoldable pub start_services : (ℕ → Bool) → Host → List ℕ → List ℕ
unfolding start_loop
start_services starts h started = start_loop starts (resolve_all service_id h.registry) started

-- The services that are stopped, in the order of the calls, and the list after them.
unfoldable pub stop_all : List ℕ → List ℕ × List ℕ
stop_all started = (started, [])
