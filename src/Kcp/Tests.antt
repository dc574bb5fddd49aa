-- ===== src/Kcp/Tests.antt =====
-- Conversations and a small send buffer: the theorems at concrete inputs.
use simple_network.Base.{
  among, ℕ, ◌^◌, ◌<◌, ◌≡◌, refl, false, List, [], ◌∷◌, ◌++◌, Bytes, ok, some, arith,
}
use simple_network.Buffer.Circle.{Circle}
use simple_network.Buffer.Circle.Valid.{IsValid, count, contents}
use simple_network.Kcp.{Ikcp, do_write, get_conv}
use simple_network.Kcp.Conv.{get_conv-free}
use simple_network.Kcp.Sending.{send_all, joined, do_write-messages}

-- The counter is about to wrap, and 1 and the last conversation are in use.
get_conv-free_example :
    (n : ℕ) × (get_conv 3 (1 ∷ 4294967295 ∷ []) 4294967294 ≡ ok n)
    × (among n (1 ∷ 4294967295 ∷ []) ≡ false)
    × (0 < n)
    × (n < 2 ^ 32)
get_conv-free_example = get_conv-free 3 (1 ∷ 4294967295 ∷ []) 4294967294 (omega arith) (omega arith)

-- Four bytes, round the end of the block.
abbrev buffered : Circle
buffered = record {
  block = record { mem = 3 ∷ 4 ∷ 0 ∷ 0 ∷ 0 ∷ 0 ∷ 1 ∷ 2 ∷ []; max_size = 4096 };
  head = 6;
  tail = 2;
}

buffered-IsValid : IsValid buffered
buffered-IsValid = record {
  sized = record { bits = 3; power = refl; small = omega arith };
  bounded = omega arith;
  head_in = omega arith;
  tail_in = omega arith;
}

-- A kcp object that keeps its messages.
abbrev keeping : Ikcp (List Bytes)
keeping = record {
  create = λ conv. [];
  wndsize = λ k sent received. k;
  nodelay = λ k nodelay interval resend nc. k;
  send = λ k bytes. k ++ (bytes ∷ []);
  input = λ k bytes. k;
  update = λ k current. (k, []);
  recv = λ k size. ([], k);
}

do_write-messages_example :
    (messages : List Bytes) × (c' : Circle) × (do_write keeping 5 (some []) buffered
      ≡ ok (some (send_all keeping [] messages), c'))
    × (joined messages ≡ contents buffered)
    × IsValid c'
    × (count c' ≡ 0)
do_write-messages_example = do_write-messages keeping 5 [] buffered buffered-IsValid (omega arith)
