-- ===== src/ArchCompare/Streams.antt =====
-- The list comparison of milestones 3C/3D and the stream comparison of milestone 4.
use rv32im_so_c_performance.Base.{ℕ, ◌+◌, ◌≡◌, true, List, [], ◌∷◌, ok, length, arith}
use rv32im_so_c_performance.Trace.{Row}
use rv32im_so_c_performance.ArchCompare.{
  Note, arch_equal_from, arch_equal, stream_from, arch_compare_stream, retirements_match,
}

arch_equal_from-stream_from :
    (i : ℕ) (model rtl : List Row)
    → length model ≡ length rtl
    → (n : ℕ) → i + length model ≡ n
    → arch_equal_from n i model rtl ≡ stream_from i model rtl
unfolding arch_equal_from stream_from
arch_equal_from-stream_from i [] [] e n k = ground arith
arch_equal_from-stream_from i [] (r ∷ rtl) e n k = absurd (omega arith)
arch_equal_from-stream_from i (m ∷ model) [] e n k = absurd (omega arith)
arch_equal_from-stream_from i (m ∷ model) (r ∷ rtl) e n k =
    ground (arith, arch_equal_from-stream_from (i + 1) model rtl (omega arith) n (omega arith))

-- On traces of one length the list comparison and the stream comparison give the same verdict, the
-- same note and the same exceptions.
pub arch_equal-stream :
    (model rtl : List Row)
    → length model ≡ length rtl
    → arch_equal model rtl ≡ arch_compare_stream model rtl
unfolding arch_equal arch_compare_stream
arch_equal-stream model rtl e =
    ground (arith, arch_equal_from-stream_from 0 model rtl e (length model) (omega arith))

stream_from-lengths :
    (i : ℕ) (model rtl : List Row) (note : Note)
    → stream_from i model rtl ≡ ok (true, note)
    → (length model ≡ length rtl) × (note ≡ retirements_match (i + length model))
unfolding stream_from
stream_from-lengths i [] [] note h = ground arith
stream_from-lengths i [] (r ∷ rtl) note h = cc
stream_from-lengths i (m ∷ model) [] note h = cc
stream_from-lengths i (m ∷ model) (r ∷ rtl) note h =
    ground (arith, stream_from-lengths (i + 1) model rtl note)

-- A stream comparison that passes has read both files to their ends, and its note counts them.
pub stream-lengths :
    (model rtl : List Row) (note : Note)
    → arch_compare_stream model rtl ≡ ok (true, note)
    → (length model ≡ length rtl) × (note ≡ retirements_match (length model))
unfolding arch_compare_stream
stream-lengths model rtl note h = ground (arith, stream_from-lengths 0 model rtl note h)
