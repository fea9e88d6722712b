-- ===== src/Heci/Taken.antt =====
-- Which word of a message the device gives next: how many words were read since the last one was
-- written to it.
use trusty_platform_sand.Base.{ℕ, suc, ◌≡◌, ◌≢◌, [], ◌∷◌, arith, ◌==◌, if◌then◌else◌}
use trusty_platform_sand.Base.Io.{Trace, rd, wr, inp, outp}
use trusty_platform_sand.Heci.Regs.{address, h_cb_ww, h_csr, sec_cb_rw}

unfoldable pub taken : ℕ → Trace → ℕ
taken base [] = 0
taken base (rd w x v ∷ t) = if x == address base sec_cb_rw then suc (taken base t) else taken base t
taken base (wr w x v ∷ t) = if x == address base h_cb_ww then 0 else taken base t
taken base (inp w x v ∷ t) = taken base t
taken base (outp w x v ∷ t) = taken base t

pub taken-rd_self :
    (base w v : ℕ) (t : Trace)
    → taken base (rd w (address base sec_cb_rw) v ∷ t) ≡ suc (taken base t)
unfolding taken
taken-rd_self base w v t = ground arith

pub taken-rd_ne :
    (base w x v : ℕ) (t : Trace)
    → x ≢ address base sec_cb_rw
    → taken base (rd w x v ∷ t) ≡ taken base t
unfolding taken
taken-rd_ne base w x v t ne = ground arith

pub taken-wr_self : (base w v : ℕ) (t : Trace) → taken base (wr w (address base h_cb_ww) v ∷ t) ≡ 0
unfolding taken
taken-wr_self base w v t = ground arith

pub taken-wr_ne :
    (base w x v : ℕ) (t : Trace)
    → x ≢ address base h_cb_ww
    → taken base (wr w x v ∷ t) ≡ taken base t
unfolding taken
taken-wr_ne base w x v t ne = ground arith

-- The control register is neither of the two ends of the buffer.
pub csr_ne_write : (base : ℕ) → address base h_csr ≢ address base h_cb_ww
csr_ne_write base = omega arith

pub csr_ne_read : (base : ℕ) → address base h_csr ≢ address base sec_cb_rw
csr_ne_read base = omega arith
