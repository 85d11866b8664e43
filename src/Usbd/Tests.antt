-- ===== src/Usbd/Tests.antt =====
-- The theorems on usbd.c at buffers.
use shield_tv_loader.Base.{◌+◌, ◌≡◌, refl, arith}
use shield_tv_loader.Usbd.{usbd_td_init}
use shield_tv_loader.Usbd.Pages.{byte_address, page_pointer, byte_address-usbd_td_init}

byte_address_run : byte_address (usbd_td_init 0x5000 0x8000_0000) 0x4321 ≡ 0x8000_4321
unfolding byte_address usbd_td_init page_pointer
byte_address_run = refl

byte_address-usbd_td_init_example :
    byte_address (usbd_td_init 0x5000 0x8000_0000) 0x4321 ≡ 0x8000_0000 + 0x4321
byte_address-usbd_td_init_example =
    byte_address-usbd_td_init 0x5000 0x8000_0000 0x4321 (omega arith) (omega arith) (omega arith)
      (omega arith)
