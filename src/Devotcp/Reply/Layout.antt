-- ===== src/Devotcp/Reply/Layout.antt =====
-- The replies as bytes, against the layout of docs/device-tcp-protocol.md.
use firmflow.Base.{ℕ, ◌+◌, ◌≡◌, refl, ap, ◌∙◌, List, [], ◌∷◌, ◌++◌, length, arith, length-append}
use firmflow.Devotcp.Outcome.{returned}
use firmflow.Devotcp.Bytes.{be16, be32, copy_next, put_next}
use firmflow.Devotcp.Reply.{fill_poll_response}

append_nil : (xs : List ℕ) → xs ++ [] ≡ xs
append_nil [] = refl
append_nil (x ∷ xs) = ap (λ l. x ∷ l) (append_nil xs)

-- The fields one behind the other.
unfoldable pub poll_response : ℕ → List ℕ → List ℕ → List ℕ → List ℕ → List ℕ → ℕ → List ℕ
poll_response flag tv du checksum campaign_id firmware_id expires_unix =
    (((((((((flag ∷ []) ++ be16 (length tv)) ++ tv) ++ checksum) ++ campaign_id) ++ firmware_id)
          ++ be16 (length du))
        ++ du)
      ++ be32 expires_unix)

pub fill_poll_response_lem :
    (flag : ℕ) (tv du checksum campaign_id firmware_id : List ℕ) (expires_unix : ℕ)
    → length checksum ≡ 32
    → length campaign_id ≡ 16
    → length firmware_id ≡ 16
    → fill_poll_response flag tv du checksum campaign_id firmware_id expires_unix
      ≡ returned (poll_response flag tv du checksum campaign_id firmware_id expires_unix)
unfolding fill_poll_response poll_response
fill_poll_response_lem flag tv du cs ci fi ex hc hi hf =
    let t = length tv in
    let d = length du in
    let a1 : List ℕ = flag ∷ [] in
    let a2 = a1 ++ be16 t in
    let a3 = a2 ++ tv in
    let a4 = a3 ++ cs in
    let a5 = a4 ++ ci in
    let a6 = a5 ++ fi in
    let a7 = a6 ++ be16 d in
    let a8 = a7 ++ du in
    let l3 : length a3 ≡ 1 + 2 + t = omega (arith, length-append a2 tv) in
    let l4 : length a4 ≡ 1 + 2 + t + 32 = omega (arith, length-append a3 cs, l3, hc) in
    let l5 : length a5 ≡ 1 + 2 + t + 32 + 16 = omega (arith, length-append a4 ci, l4, hi) in
    let l6 : length a6 ≡ 1 + 2 + t + 32 + 16 + 16 = omega (arith, length-append a5 fi, l5, hf) in
    let l7 : length a7 ≡ 1 + 2 + t + 32 + 16 + 16 + 2 =
      omega (arith, length-append a6 (be16 d), l6) in
    let l8 : length a8 ≡ 1 + 2 + t + 32 + 16 + 16 + 2 + d =
      omega (arith, length-append a7 du, l7) in
    let n1 = 2 + t + 32 + 16 + 16 + 2 + d + 4 in
    let n2 = t + 32 + 16 + 16 + 2 + d + 4 in
    let n3 = 32 + 16 + 16 + 2 + d + 4 in
    let n4 = 16 + 16 + 2 + d + 4 in
    let n5 = 16 + 2 + d + 4 in
    let n6 = 2 + d + 4 in
    let n7 = d + 4 in
    rw (put_next 0 [] a1 (1 + 2 + t + 32 + 16 + 16 + 2 + d + 4) n1 refl (omega arith)) (
      rw (put_next 1 a1 (be16 t) n1 n2 refl (omega arith)) (
        rw (copy_next 3 a2 tv n2 n3 refl (omega arith)) (
          rw (copy_next (3 + t) a3 cs n3 n4 (omega (arith, l3)) (omega (arith, hc))) (
            rw (copy_next (3 + t + 32) a4 ci n4 n5 (omega (arith, l4)) (omega (arith, hi))) (
              rw (copy_next (3 + t + 32 + 16) a5 fi n5 n6 (omega (arith, l5)) (omega (arith, hf))) (
                rw
                  (put_next (3 + t + 32 + 16 + 16) a6 (be16 d) n6 n7 (omega (arith, l6))
                    (omega arith))
                  (rw
                    (copy_next (3 + t + 32 + 16 + 16 + 2) a7 du n7 4 (omega (arith, l7))
                      (omega arith))
                    (put_next (3 + t + 32 + 16 + 16 + 2 + d) a8 (be32 ex) 4 0 (omega (arith, l8))
                        (omega arith)
                      ∙ ap returned (append_nil (a8 ++ be32 ex))))))))))
