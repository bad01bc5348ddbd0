-- ===== src/Rpc.antt =====
-- A request from end to end: its package on the server's loop, the job of the pool, the response, and
-- its package on the client's loop, with the handlers of Communication/core/comm_core.cpp.
pub mod Serve
pub mod Returns
pub mod Exchange
use udpboardcast.Base.{ℕ, ◌≡◌, refl, sym, subst, ◌∙◌, List, [], ◌∷◌, ◌++◌, append-nil}
use udpboardcast.Proto.{CommPkg, encode}
use udpboardcast.Stream.{CommTcp, pending}
use udpboardcast.Stream.Decodes.{Decodes}
use udpboardcast.Stream.Reassembly.{IsCache, Reads, receive-Reads, IsSent, encode_each-Decodes}

-- The read that completes a package gives that package.
pub receive-last :
    (t : CommTcp) (content : List ℕ) (pkg : CommPkg)
    → IsCache t
    → IsSent pkg
    → pending t ++ content ≡ encode pkg
    → Reads t content (pkg ∷ []) []
receive-last t content pkg cache sent whole = receive-Reads t content cache (
    subst (λ b. Decodes b (pkg ∷ []) []) (append-nil (encode pkg) ∙ sym whole)
      (encode_each-Decodes (pkg ∷ []) (sent, tt)))
