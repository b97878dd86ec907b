-- ===== src/Unl/Compute/Ips.antt =====
-- The points that scoreCompute of src/UniqueNodeList/UniqueNodeList.cpp gives to addresses.
use Prim.Native.String.{String}
use bytev.Prelude.{
  ℕ, suc, ◌+◌, ◌-◌, ◌*◌, ◌/◌, ◌≤◌, ◌≡◌, ap, Option, none, some, List, [], ◌∷◌, length, arith,
  Option-cases, inl, inr, All,
}
use bytev.Prelude.Int.{ℤ}
use bytev.Prelude.Maps.{string_eq, find, erase, insert}
use bytev.Peer.State.{IpPort}
use bytev.Pool.{ip_port_eq}
use bytev.Unl.Index.{Index}
use bytev.Unl.Rounds.{base}
use bytev.Unl.Rounds.Points.{points, points-le-seed}
use bytev.Unl.Compute.{IpScores, add_ip, port_or_none, score_ip_rows, score_at, score_ips}

abbrev pub ip_total : IpScores → ℕ
ip_total [] = 0
ip_total ((ip, x) ∷ m) = x + ip_total m

abbrev value_or : ℕ → Option ℕ → ℕ
value_or d none = d
value_or d (some x) = x

ip_total-erase :
    (ip : IpPort) (m : IpScores) → ip_total (erase ip m) + value_or 0 (find ip m) ≤ ip_total m
unfolding find erase
ip_total-erase ip [] = omega arith
ip_total-erase ip ((j, x) ∷ m) = ground (arith, ip_total-erase ip m)

ip_total-add_ip : (ip : IpPort) (x : ℕ) (m : IpScores) → ip_total (add_ip ip x m) ≤ ip_total m + x
unfolding add_ip insert
ip_total-add_ip ip x m = ground (arith, ip_total-erase ip m)

ip_total-score_ip_rows :
    (b n i : ℕ) (rows : List (String × Option ℤ)) (m : IpScores)
    → i + length rows ≡ n
    → ip_total (score_ip_rows b n i rows m) ≤ ip_total m + points b n (length rows)
unfolding score_ip_rows points
ip_total-score_ip_rows b n i [] m e = omega arith
ip_total-score_ip_rows b n i ((ip, port) ∷ rows) m e =
    let at : IpPort = (ip, port_or_none port) in
    let x = b * (n - i) / n in
    let same : x ≡ b * suc (length rows) / n = ap (λ k. b * k / n) (omega arith) in
    omega (
      arith,
      ip_total-score_ip_rows b n (i + 1) rows (add_ip at x m) (omega arith),
      ip_total-add_ip at x m,
      same,
    )

-- What the validators of the counts that are nodes have to give: their scores.
abbrev pub given : Index → List (String × ℕ) → ℕ
given ix [] = 0
given ix ((validator, entries) ∷ counts) =
    (elim (find validator ix.public_idx) [ none ↦ 0 | some i ↦ score_at i ix.nodes ])
    + given ix counts

-- The addresses get together at most the scores of the validators that refer to them, if each
-- validator has as many rows as were counted.
pub ip_total-score_ips :
    (rows_of : String → List (String × Option ℤ)) (ix : Index) (counts : List (String × ℕ))
    (m : IpScores)
    → All (λ row. length (rows_of row.0) ≡ row.1) counts
    → ip_total (score_ips rows_of ix counts m) ≤ ip_total m + given ix counts
unfolding score_ips
ip_total-score_ips rows_of ix [] m h = omega arith
ip_total-score_ips rows_of ix ((validator, n) ∷ counts) m h =
    elim (Option-cases (find validator ix.public_idx)) [
      | inl e ↦ rw (e, score_ips) (omega (arith, ip_total-score_ips rows_of ix counts m h.1))
      | inr (i, e) ↦
          let seed = score_at i ix.nodes in
          let m' = score_ip_rows (base seed n) n 0 (rows_of validator) m in
          let same : points (base seed n) n (length (rows_of validator))
              ≡ points (base seed n) n n =
            ap (points (base seed n) n) h.0 in
          rw (e, score_ips)
            (omega (
              arith,
              ip_total-score_ips rows_of ix counts m' h.1,
              ip_total-score_ip_rows (base seed n) n 0 (rows_of validator) m (omega (arith, h.0)),
              points-le-seed seed n,
              same,
            ))
    ]
