-- ===== src/Manager/Tls.antt =====
-- The TLS options of cmd/main.go: functions on a `tls.Config`, kept in Go slices. A slice is a part of
-- an array on the heap, and `append` writes behind the slice where the array has room.
use yet_another_mysql_operat.Prelude.{
  ℕ, zero, suc, ◌*◌, ◌&&◌, List, [], ◌∷◌, ◌++◌, Option, none, some, ltb, ◌==◌, if◌then◌else◌,
}
use yet_another_mysql_operat.Prelude.Text.{Text, codes}

-- The two functions that the program appends: `disableHTTP2`, and the one that sets
-- `GetCertificate` to the watcher's.
pub data TlsOption (Watcher : Type 0) : Type 0 where
  disable_http2 : TlsOption Watcher
  get_certificate : Watcher → TlsOption Watcher

-- The fields of `tls.Config` that they set.
pub record TlsConfig (Watcher : Type 0) : Type 0 where
  pub next_protos : List Text
  pub certificate : Option Watcher

-- `s[:length]` of an array with `capacity` places.
pub record Slice : Type 0 where
  pub array : ℕ
  pub length : ℕ
  pub capacity : ℕ

-- The places of all arrays; the next array gets the number `next`.
pub record Heap (Watcher : Type 0) : Type 0 where
  pub next : ℕ
  pub cells : ℕ → ℕ → Option (TlsOption Watcher)

-- `var tlsOpts []func(*tls.Config)`
abbrev pub nil : Slice
nil = record { array = 0; length = 0; capacity = 0 }

-- The capacity that `append` gives a full slice of pointers, which below 256 places is the double.
unfoldable pub grown_capacity : ℕ → ℕ
grown_capacity zero = 1
grown_capacity (suc n) = 2 * suc n

module _ {Watcher : Type 0} where
  unfoldable pub apply_option : TlsOption Watcher → TlsConfig Watcher → TlsConfig Watcher
  apply_option disable_http2 c = record c { next_protos = codes "http/1.1" ∷ [] }
  apply_option (get_certificate w) c = record c { certificate = some w }

  -- The servers apply the options in their order.
  unfoldable pub apply_options : List (TlsOption Watcher) → TlsConfig Watcher → TlsConfig Watcher
  unfolding apply_option
  apply_options [] c = c
  apply_options (o ∷ os) c = apply_options os (apply_option o c)

  abbrev set_cell : ℕ → ℕ → TlsOption Watcher → Heap Watcher → Heap Watcher
  set_cell a i o h = record h { cells = λ b j. if b == a && j == i then some o else h.cells b j }

  -- A new array that begins with the places of `a` below `n`.
  abbrev copy_array : ℕ → ℕ → Heap Watcher → Heap Watcher
  copy_array a n h = record {
    next = suc h.next;
    cells = λ b j. if b == h.next then (if ltb j n then h.cells a j else none) else h.cells b j;
  }

  -- `append(slice, option)`
  unfoldable pub append : TlsOption Watcher → Slice → Heap Watcher → Slice × Heap Watcher
  unfolding grown_capacity
  append o s h =
      if ltb s.length s.capacity
      then (record s { length = suc s.length }, set_cell s.array s.length o h)
      else (
        record { array = h.next; length = suc s.length; capacity = grown_capacity s.capacity },
        set_cell h.next s.length o (copy_array s.array s.length h),
      )

  abbrev option_list : Option (TlsOption Watcher) → List (TlsOption Watcher)
  option_list none = []
  option_list (some o) = o ∷ []

  abbrev first_cells : (ℕ → Option (TlsOption Watcher)) → ℕ → List (TlsOption Watcher)
  first_cells cells zero = []
  first_cells cells (suc n) = first_cells cells n ++ option_list (cells n)

  -- The options that a reader of the slice finds.
  unfoldable pub contents : Heap Watcher → Slice → List (TlsOption Watcher)
  contents h s = first_cells (h.cells s.array) s.length
