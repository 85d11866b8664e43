-- ===== src/Usbd/Pages.antt =====
-- The page pointers of a transfer descriptor: the controller finds each byte of a buffer, of at most
-- 0x5000 bytes at a page, where the buffer has it.
use shield_tv_loader.Base.{
  ℕ, ◌+◌, ◌-◌, ◌*◌, ◌/◌, ◌%◌, ◌^◌, ◌≤◌, ◌<◌, ◌≡◌, refl, ◌∙◌, ◌==◌, if◌then◌else◌, bit_and, arith,
  bit_and-IsFloor, zero, suc, ℕ_discrete,
}
use shield_tv_loader.Usbd.{UsbdTd, usbd_td_init}

-- The page pointers, by number.
unfoldable pub page_pointer : UsbdTd → ℕ → ℕ
page_pointer td j =
    if j == 0
    then td.buff_ptr0
    else if j == 1
    then td.buff_ptr1
    else if j == 2
    then td.buff_ptr2
    else if j == 3
    then td.buff_ptr3
    else td.buff_ptr4

-- Where the controller finds the byte at an offset: it counts the pages from the offset that the first
-- pointer has in its page.
unfoldable pub byte_address : UsbdTd → ℕ → ℕ
byte_address td i =
    let at = td.buff_ptr0 % 0x1000 + i in
    bit_and (page_pointer td (at / 0x1000)) 0xffff_f000 + at % 0x1000

floor_page : (p : ℕ) → p < 2 ^ 32 → bit_and p 0xffff_f000 ≡ p - p % 0x1000
floor_page p h =
    let f = bit_and-IsFloor 12 32 p 0xffff_f000 h (omega arith) refl in
    omega (arith, f.below, f.near, f.multiple)

module _ (size buf : ℕ) (below : buf + size ≤ 2 ^ 32) where
  -- The start of the buffer's page.
  abbrev base : ℕ
  base = buf - buf % 0x1000

  -- A pointer to the page `j` is right, if the transfer reaches this page.
  abbrev IsPointer : ℕ → ℕ → Type 0
  IsPointer j p = j * 0x1000 < size → p ≡ base + j * 0x1000

  buff_ptr0_lem : 0 < size → (usbd_td_init size buf).buff_ptr0 ≡ buf
  unfolding usbd_td_init
  buff_ptr0_lem k = ground (arith, below)

  buff_ptr1-IsPointer : IsPointer 1 (usbd_td_init size buf).buff_ptr1
  unfolding usbd_td_init
  buff_ptr1-IsPointer k = ground (arith, floor_page buf (omega (arith, below, k)))

  buff_ptr2-IsPointer : IsPointer 2 (usbd_td_init size buf).buff_ptr2
  unfolding usbd_td_init
  buff_ptr2-IsPointer k = ground (arith, floor_page buf (omega (arith, below, k)))

  buff_ptr3-IsPointer : IsPointer 3 (usbd_td_init size buf).buff_ptr3
  unfolding usbd_td_init
  buff_ptr3-IsPointer k = ground (arith, floor_page buf (omega (arith, below, k)))

  buff_ptr4-IsPointer : IsPointer 4 (usbd_td_init size buf).buff_ptr4
  unfolding usbd_td_init
  buff_ptr4-IsPointer k = ground (arith, floor_page buf (omega (arith, below, k)))

  -- The pages that the buffer reaches are those that its size asks for.
  page_pointer-IsPointer :
      (j : ℕ) → 0 < j → j < 5 → IsPointer j (page_pointer (usbd_td_init size buf) j)
  unfolding page_pointer
  page_pointer-IsPointer zero pos small = absurd (omega arith)
  page_pointer-IsPointer (suc zero) pos small = buff_ptr1-IsPointer
  page_pointer-IsPointer (suc (suc zero)) pos small = buff_ptr2-IsPointer
  page_pointer-IsPointer (suc (suc (suc zero))) pos small = buff_ptr3-IsPointer
  page_pointer-IsPointer (suc (suc (suc (suc zero)))) pos small = buff_ptr4-IsPointer
  page_pointer-IsPointer (suc (suc (suc (suc (suc j))))) pos small = absurd (omega (arith, small))

  first_page : 0 < size → page_pointer (usbd_td_init size buf) 0 ≡ buf
  unfolding page_pointer
  first_page = buff_ptr0_lem

  -- A page behind the first.
  next_page_address :
      (j : ℕ)
      → 0 < j
      → j < 5
      → j * 0x1000 < size
      → bit_and (page_pointer (usbd_td_init size buf) j) 0xffff_f000 ≡ base + j * 0x1000
  next_page_address j pos small k =
      let e = page_pointer-IsPointer j pos small k in
      rw e (floor_page (base + j * 0x1000) (omega (arith, below, k)) ∙ omega arith)

-- The controller finds each byte of a buffer at its own address through the page pointers that
-- usbd_td_init writes, if the buffer ends below 4 GiB, has at most 0x5000 bytes, and reaches into no
-- more pages than its size alone asks for.
pub byte_address-usbd_td_init :
    (size buf i : ℕ)
    → buf + size ≤ 2 ^ 32
    → size ≤ 0x5000
    → buf % 0x1000 + size ≤ (size + 0xfff) / 0x1000 * 0x1000
    → i < size
    → byte_address (usbd_td_init size buf) i ≡ buf + i
unfolding byte_address
byte_address-usbd_td_init size buf i below h fits k =
    let j = (buf % 0x1000 + i) / 0x1000 in
    let reached : j * 0x1000 < size = omega (arith, fits, k) in
    let few : j < 5 = omega (arith, fits, k, h) in
    let f = first_page size buf below (omega (arith, k)) in
    let e = buff_ptr0_lem size buf below (omega (arith, k)) in
    let page : bit_and (page_pointer (usbd_td_init size buf) j) 0xffff_f000
        ≡ buf - buf % 0x1000 + j * 0x1000 =
      elim (ℕ_discrete j 0) [
        | yes first ↦ rw (first, f) (omega (arith, floor_page buf (omega (arith, below, k))))
        | no later ↦ next_page_address size buf below j (omega (arith, later)) few reached
      ] in
    simp (e, page) (omega arith)
