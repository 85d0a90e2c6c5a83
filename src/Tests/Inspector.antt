-- ===== src/Tests/Inspector.antt =====
-- src/webinspector.c on a message that is sent in two parts, with property lists of three kinds.
use bootstrap_agency_templat.Prelude.{
  ℕ, ◌+◌, ◌≤◌, ◌≡◌, refl, Bool, true, false, Option, none, some, List, [], ◌∷◌, arith, ◌==◌,
  if◌then◌else◌, length, replicate, length-replicate,
}
use bootstrap_agency_templat.Libc.{strcmp_equal}
use bootstrap_agency_templat.CharBuffer
use bootstrap_agency_templat.WebInspector
use bootstrap_agency_templat.WebInspector.{
  parse_length, length_prefix, Wi, Plist, Status, success, send_plist, partial_key, final_key,
  max_rpc_len,
}
use bootstrap_agency_templat.WebInspector.Loop.{Done, recv_loop}
use bootstrap_agency_templat.WebInspector.Reassembly.{Wraps}
use bootstrap_agency_templat.WebInspector.Pipe.{Arrived, pipe, send_plist-Arrived}
use bootstrap_agency_templat.WebInspector.Progress.{recv_loop-finishes}

data Node : Type 0 where
  message : List ℕ → Node
  part : Bool → List ℕ → Node
  content : List ℕ → Node

abbrev to_bin : Node → Option (List ℕ)
to_bin (message s) = some (7 ∷ s)
to_bin (part b s) = some ((if b then 1 else 0) ∷ s)
to_bin (content s) = none

abbrev from_bin : List ℕ → Option Node
from_bin [] = none
from_bin (x ∷ s) = some (if x == 7 then message s else part (x == 1) s)

abbrev get_item : Node → List ℕ → Option Node
get_item (message s) key = none
get_item (part b s) key =
    if strcmp_equal key (if b then partial_key else final_key) then some (content s) else none
get_item (content s) key = none

abbrev data_val : Node → Option (List ℕ)
data_val (message s) = none
data_val (part b s) = none
data_val (content s) = some s

abbrev plist : Plist Node
plist = record {
  to_bin = to_bin;
  from_bin = from_bin;
  get_item = get_item;
  data_val = data_val;
  dict_of = λ key s. part (strcmp_equal key partial_key) s;
}

wraps : (is_partial : Bool) (s : List ℕ) → length s ≤ max_rpc_len → Wraps plist is_partial s
unfolding strcmp_equal
wraps true s h = record {
  text = 1 ∷ s;
  written = refl;
  short = omega arith;
  dict = part true s;
  read = refl;
  node = content s;
  other = λ e. refl;
  item = refl;
  value = refl;
}
wraps false s h = record {
  text = 0 ∷ s;
  written = refl;
  short = omega arith;
  dict = part false s;
  read = refl;
  node = content s;
  other = λ e. absurd (cc e);
  item = refl;
  value = refl;
}

abbrev recv_plist : Node → ℕ → ℕ × Status
recv_plist dict e = (e + 1, success)

abbrev alloc : ℕ → Bool
alloc n = true

abbrev long : List ℕ
long = replicate 8000 1

abbrev receiver : Wi
receiver = WebInspector.new true

send_plist-Arrived_example :
    Arrived plist alloc recv_plist receiver 0
      (message long)
      (send_plist plist alloc true (pipe plist alloc recv_plist) (message long) (receiver, 0))
unfolding WebInspector.new CharBuffer.new
send_plist-Arrived_example =
    send_plist-Arrived plist alloc recv_plist (λ n. refl) wraps (message long) (message long)
      (7 ∷ long) receiver 0 refl refl (omega (arith, length-replicate {A = ℕ} 8000 1)) refl
      (record { order = omega arith; within = omega arith }) refl
      (omega (arith, length-replicate {A = ℕ} 8000 1))

recv_loop-finishes_example :
    (done : Done ℕ) × recv_loop plist alloc 20 recv_plist receiver 0 (0 ∷ 0 ∷ 0 ∷ 1 ∷ 7 ∷ [])
      ≡ some done
recv_loop-finishes_example =
    recv_loop-finishes plist alloc recv_plist 20 receiver 0 (0 ∷ 0 ∷ 0 ∷ 1 ∷ 7 ∷ []) (omega arith)
