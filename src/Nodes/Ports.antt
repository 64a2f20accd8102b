-- ===== src/Nodes/Ports.antt =====
-- `select_port_with_bounded_recheck` of nodes.py.
pub mod Sound
use rtsp_proxy.Prelude.{
  ℕ, zero, suc, Bool, true, false, not, Option, none, some, List, [], ◌∷◌, ◌==◌, length, any,
  is_some, if◌then◌else◌,
}
use rtsp_proxy.Prelude.Errors.{
  runtime_error, node_port_in_use, node_port_range_exhausted, Result, ok, err, refuse, ◌>>=◌, ◌>>◌,
}

-- `port in ports`
abbrev pub contains : List ℕ → ℕ → Bool
contains ports port = any (λ p. p == port) ports

-- `ports.remove(port)`
unfoldable pub remove_port : ℕ → List ℕ → List ℕ
remove_port port [] = []
remove_port port (p ∷ rest) =
    let tail = remove_port port rest in if p == port then rest else p ∷ tail

abbrev chosen : Option ℕ → (List ℕ → ℕ) → List ℕ → ℕ
chosen (some port) choose candidates = port
chosen none choose candidates = choose candidates

-- One round for each candidate; `choose_port` is not of this code, and may return any port.
unfoldable pub select_rounds : ℕ → Option ℕ → (List ℕ → ℕ) → (ℕ → Bool) → List ℕ → Result ℕ
unfolding remove_port
select_rounds zero preferred choose bindable candidates =
    err (node_port_range_exhausted "node_port_range_exhausted")
select_rounds (suc rounds) preferred choose bindable candidates =
    let port = chosen preferred choose candidates in
    let rest = select_rounds rounds preferred choose bindable (remove_port port candidates) in
    do
      refuse (not (contains candidates port)) (runtime_error "node_port_selector_invalid")
      if bindable port
          then ok port
          else do refuse (is_some preferred) (node_port_in_use "node_port_in_use"); rest

unfoldable pub select_port_with_bounded_recheck :
    Option ℕ → (List ℕ → ℕ) → (ℕ → Bool) → List ℕ → Result ℕ
unfolding select_rounds
select_port_with_bounded_recheck preferred choose bindable available =
    select_rounds (length available) preferred choose bindable available

-- `lambda candidates: candidates[0]`, which is only asked for candidates.
abbrev pub first_port : List ℕ → ℕ
first_port [] = 0
first_port (p ∷ rest) = p
