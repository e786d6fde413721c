-- ===== src/Viewer/Reassembler/Outputs.antt =====
-- `H264RtpReassembler` on one list of packets behind another.
use car_detect.Prelude.{◌≡◌, refl, sym, ap, fun_ext, ◌∙◌, List, [], ◌∷◌, ◌++◌, Bytes, append_assoc}
use car_detect.Effect.{Outcome, done, crash, stuck}
use car_detect.Viewer.Reassembler.{Reassembler, handle_rtp, handle_all, chain, add_outputs}

add_outputs-then :
    (out : List Bytes) (o : Outcome (Reassembler × List Bytes))
    (next : Reassembler → Outcome (Reassembler × List Bytes))
    → chain (add_outputs out o) next ≡ add_outputs out (chain o next)
unfolding chain add_outputs
add_outputs-then out (done (r, out')) next = outputs (next r)
  where
    outputs :
        (o : Outcome (Reassembler × List Bytes))
        → add_outputs (out ++ out') o ≡ add_outputs out (add_outputs out' o)
    outputs (done (r', out'')) = ap (λ (l : List Bytes). done (r', l)) (append_assoc out out' out'')
    outputs crash = refl
    outputs stuck = refl
add_outputs-then out crash next = refl
add_outputs-then out stuck next = refl

add_outputs-nil : (o : Outcome (Reassembler × List Bytes)) → add_outputs [] o ≡ o
unfolding add_outputs
add_outputs-nil (done (r, out)) = refl
add_outputs-nil crash = refl
add_outputs-nil stuck = refl

chain_assoc :
    (o : Outcome (Reassembler × List Bytes))
    (f g : Reassembler → Outcome (Reassembler × List Bytes))
    → chain (chain o f) g ≡ chain o (λ r. chain (f r) g)
unfolding chain
chain_assoc (done (r, out)) f g = add_outputs-then out (f r) g
chain_assoc crash f g = refl
chain_assoc stuck f g = refl

pub handle_all-append :
    (ps qs : List Bytes) (r : Reassembler)
    → handle_all (ps ++ qs) r ≡ chain (handle_all ps r) (handle_all qs)
unfolding handle_all chain
handle_all-append [] qs r = sym (add_outputs-nil (handle_all qs r))
handle_all-append (p ∷ ps) qs r =
    ap (chain (handle_rtp p r)) (fun_ext (handle_all-append ps qs))
    ∙ sym (chain_assoc (handle_rtp p r) (handle_all ps) (handle_all qs))

handle_all-both :
    (ps qs : List Bytes) (r r1 r2 : Reassembler) (out out' : List Bytes)
    → handle_all ps r ≡ done (r1, out)
    → handle_all qs r1 ≡ done (r2, out')
    → handle_all (ps ++ qs) r ≡ done (r2, out ++ out')
unfolding chain add_outputs
handle_all-both ps qs r r1 r2 out out' e f = rw (handle_all-append ps qs r, e, f) refl
