-- ===== src/Client/Dialer/Bound.antt =====
-- How the interface is named does not matter, and the order of bytes is undone by itself.
use cftun.Common.{
  ℕ, ◌≡◌, refl, ap, ◌^◌, ◌<◌, false, not, ◌==◌, if◌then◌else◌, Option, none, some, String, List, [],
  ◌∷◌, ◌++◌, arith,
}
use cftun.Common.Text.{is_empty}
use cftun.Client.Dialer.{Options, Call, System, index_of, guarded, attempt, bind_to_device, so_mark}
use cftun.Client.Dialer.Linux as Linux
use cftun.Client.Dialer.Darwin as Darwin
use cftun.Client.Dialer.Windows as Windows
use cftun.Client.Dialer.Windows.{network_order}

pub network_order-network_order : (n : ℕ) → n < 2 ^ 32 → network_order (network_order n) ≡ n
unfolding network_order
network_order-network_order n h = omega arith

-- An interface that the system knows under a name and an index.
pub record Known (s : System) (name : String) (index : ℕ) : Type 0 where
  pub named : is_empty name ≡ false
  pub numbered : index == 0 ≡ false
  pub by_name : s.by_name name ≡ some index
  pub by_index : s.by_index index ≡ some name

-- The options that name it in one of the two ways, or in both.
abbrev pub named_options : String → ℕ → ℕ → Options
named_options name index mark = record {
  interface_name = name;
  interface_index = 0;
  routing_mark = mark;
}

abbrev pub numbered_options : String → ℕ → ℕ → Options
numbered_options name index mark = record {
  interface_name = "";
  interface_index = index;
  routing_mark = mark;
}

abbrev pub both_options : String → ℕ → ℕ → Options
both_options name index mark = record {
  interface_name = name;
  interface_index = index;
  routing_mark = mark;
}

-- A function of the options that the way does not matter to.
pub Same : {R : Type 0} → (Options → R) → String → ℕ → ℕ → Type 0
Same f name index mark =
    (f (named_options name index mark) ≡ f (both_options name index mark))
    × (f (numbered_options name index mark) ≡ f (both_options name index mark))

name_of-Same :
    (s : System) (name : String) (index mark : ℕ)
    → Known s name index
    → Same (Linux.name_of s) name index mark
unfolding Same Linux.name_of
name_of-Same s name index mark k = (rw (k.named) refl, rw (k.named, k.numbered, k.by_index) refl)

index_of-Same :
    (s : System) (name : String) (index mark : ℕ)
    → Known s name index
    → Same (index_of s) name index mark
unfolding Same index_of
index_of-Same s name index mark k = (rw (k.named, k.numbered, k.by_name) refl, rw (k.numbered) refl)

-- For an interface that the system knows by its name and its index: on Linux, Darwin and Windows,
-- the calls on a socket and the error are the same whether the options have the name, the index or
-- both.
pub set_socket_options-Same :
    (s : System) (network address name : String) (index mark : ℕ)
    → Known s name index
    → Same (Linux.set_socket_options s network address) name index mark
      × Same (Darwin.set_socket_options s network address) name index mark
      × Same (Windows.set_socket_options s network address) name index mark
unfolding Same Linux.set_socket_options Linux.calls Darwin.set_socket_options
    Windows.set_socket_options
set_socket_options-Same s network address name index mark k =
    let (n1, n2) = name_of-Same s name index mark k in
    let (i1, i2) = index_of-Same s name index mark k in
    let linux : String → List Call × Option String = λ n. guarded s network address (
      attempt s (
        (if not (is_empty n) then bind_to_device n ∷ [] else [])
        ++ (if not (mark == 0) then so_mark mark ∷ [] else []))) in
    let darwin : ℕ → List Call × Option String =
      λ i. guarded s network address (attempt s (Darwin.calls network i)) in
    let windows : ℕ → List Call × Option String = λ i.
      guarded s network address
        (if i == 0 then ([], none) else Windows.bind s network (s.global address) i) in
    ((ap linux n1, ap linux n2), (ap darwin i1, ap darwin i2), (ap windows i1, ap windows i2))
