-- ===== src/Irq/Pic.antt =====
-- interrupts.c: the masks of the two 8259 interrupt controllers, which are off while the secure
-- side starts.
use trusty_platform_sand.Base.{ℕ, ◌%◌, ◌^◌, ◌≡◌, refl, arith, ◌∷◌}
use trusty_platform_sand.Base.Io.{
  Device, Trace, Io, inp, outp, done, pure, read_port, write_port, ◌>>=◌, ◌>>◌,
}

-- PIC1_DATA
abbrev pub pic1_data : ℕ
pic1_data = 0x21

-- PIC2_DATA
abbrev pub pic2_data : ℕ
pic2_data = 0xA1

-- The masks that are saved
pub record Pic : Type 0 where
  pub master_pic : ℕ
  pub slave_pic : ℕ

module _ (ports : Device) where
  unfoldable pub disable_pic : Io Pic
  disable_pic = do
    master_pic ← read_port ports 8 pic1_data
    slave_pic ← read_port ports 8 pic2_data
    write_port 8 pic1_data 0xff
    write_port 8 pic2_data 0xff
    pure (record { master_pic = master_pic; slave_pic = slave_pic })

unfoldable pub restore_pic : Pic → Io (Unit {0})
restore_pic pic = do write_port 8 pic1_data pic.master_pic; write_port 8 pic2_data pic.slave_pic

-- Whatever happens between them, `restore_pic` writes to both controllers what `disable_pic` read
-- from them before it masked all their lines.
pub restore_pic-disable_pic :
    (ports : Device) (t u : Trace)
    → (pic : Pic) × (disabled : Trace) × (disable_pic ports t ≡ done pic disabled)
      × (disabled
          ≡ outp 8 pic2_data 0xff
            ∷ outp 8 pic1_data 0xff
            ∷ inp 8 pic2_data pic.slave_pic
            ∷ inp 8 pic1_data pic.master_pic
            ∷ t)
      × (restore_pic pic u
          ≡ done tt (outp 8 pic2_data pic.slave_pic ∷ outp 8 pic1_data pic.master_pic ∷ u))
unfolding disable_pic restore_pic
restore_pic-disable_pic ports t u =
    let a : ℕ = ports t 8 pic1_data in
    let b : ℕ = ports (inp 8 pic1_data (a % 2 ^ 8) ∷ t) 8 pic2_data in
    let once : a % 2 ^ 8 % 2 ^ 8 ≡ a % 2 ^ 8 = omega arith in
    let twice : b % 2 ^ 8 % 2 ^ 8 ≡ b % 2 ^ 8 = omega arith in
    (record { master_pic = a % 2 ^ 8; slave_pic = b % 2 ^ 8 }, _, refl, refl, rw (once, twice) refl)
