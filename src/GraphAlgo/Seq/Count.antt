-- ===== src/GraphAlgo/Seq/Count.antt =====
-- How often a node is a source, or a destination, of the edges admitted in a timeslot.
use flexplane.Base.{ℕ, ◌+◌, ◌≡◌, refl, ◌==◌, if◌then◌else◌, List, [], ◌∷◌, ◌++◌, arith}
use flexplane.GraphAlgo.Admitted.{AdmittedEdge}

pub count_src : ℕ → List AdmittedEdge → ℕ
count_src s [] = 0
count_src s (e ∷ es) = (if e.src == s then 1 else 0) + count_src s es

pub count_dst : ℕ → List AdmittedEdge → ℕ
count_dst d [] = 0
count_dst d (e ∷ es) = (if e.dst == d then 1 else 0) + count_dst d es

pub count_src-nil : (s : ℕ) → count_src s [] ≡ 0
unfolding count_src
count_src-nil s = refl

pub count_dst-nil : (d : ℕ) → count_dst d [] ≡ 0
unfolding count_dst
count_dst-nil d = refl

pub count_src-append :
    (s : ℕ) (es : List AdmittedEdge) (e : AdmittedEdge)
    → count_src s (es ++ (e ∷ [])) ≡ (if e.src == s then 1 else 0) + count_src s es
unfolding count_src
count_src-append s [] e = refl
count_src-append s (x ∷ es) e = ground (arith, count_src-append s es e)

pub count_dst-append :
    (d : ℕ) (es : List AdmittedEdge) (e : AdmittedEdge)
    → count_dst d (es ++ (e ∷ [])) ≡ (if e.dst == d then 1 else 0) + count_dst d es
unfolding count_dst
count_dst-append d [] e = refl
count_dst-append d (x ∷ es) e = ground (arith, count_dst-append d es e)
