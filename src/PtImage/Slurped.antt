-- ===== src/PtImage/Slurped.antt =====
-- src/ptimgchk.cc: the guest behind a fixup that takes the native process's state.
use vexllvm.Base.{ℕ, ◌≡◌, ◌≢◌, refl, false, true, All, if◌then◌else◌, ok}
use vexllvm.PtShadow.Regs.{user_regs_desc_tab, get_reg_user, get_reg_vex}
use vexllvm.PtShadow.Compare
use vexllvm.PtShadow.Copies.{is_match-set_regs}
use vexllvm.PtShadow.Decode.{fixup_guest}
use vexllvm.PtImage.Pages.{do_fixup_guest}
use vexllvm.PtImage.Fixed.{is_copied, do_fixup_guest_lem}
use vexllvm.PtImage.Check.{Image, Host, to_guest, settle, fixup_by}

module _ (h : Host) where
  -- For a process whose FS base is not 0, the fixup that takes its state returns: the guest has
  -- its 18 registers; with flags unchecked isMatch holds of the registers exactly if the x87
  -- registers pass; and each byte of the guest is the one of the process on the pages that the
  -- new words of the CPU state point to, where these are mapped and may be written, and as
  -- before elsewhere.
  pub fixup_by-guest :
      (c : Image) (a : ℕ)
      → c.user.fs_base ≢ 0
      → (c' : Image) × (fixup_by h fixup_guest c ≡ ok (c', true))
        × All (λ x. get_reg_vex x c'.vex ≡ get_reg_user x c.user) user_regs_desc_tab
        × (Compare.is_match h.lib false c'.vex c.user c.fp
            ≡ Compare.passes_from 0 8 (Compare.is_x87_ok h.lib c'.vex c.fp))
        × (c'.guest_mem a ≡ (
            if is_copied h.lookup (h.state_words c'.vex) a then c.native_mem a else c.guest_mem a))
  unfolding fixup_by to_guest settle
  fixup_by-guest c a base =
      let (vex, done, registers, same) = is_match-set_regs h.lib c.vex c.user c.fp base in
      let memory = do_fixup_guest_lem h.lookup (h.state_words vex) c.native_mem c.guest_mem a in
      let slurped : Image = record c {
        vex = vex;
        guest_mem = do_fixup_guest h.lookup (h.state_words vex) c.native_mem c.guest_mem;
      } in
      (settle h slurped, rw done refl, registers, same, memory)
