-- ===== src/MainScreen/Kept.antt =====
-- src/input.c: the handlers of the main screen and the ranges of the context.
use sockmon.Base.{
  ℕ, ◌-◌, ◌/◌, arith, true, ◌&&◌, Bool-cases, inl, inr, if◌then◌else◌, leb, ℤ, pos, ltb_ℤ, leb_ℤ,
  ◌+ℤ◌, ◌-ℤ◌, Option, none, some,
}
use sockmon.Conn.{af_inet, af_inet6}
use sockmon.Ctx.{Ctx, half_page, screen_help, ipproto_tcp, ipproto_udp}
use sockmon.Ctx.Valid.{
  IsNat, IsCtx, half_page_lem, add-IsNat, pred-IsNat, clip-IsNat, if-IsCtx, set-IsCtx,
}
use sockmon.MainScreen.{
  main_ip_handler, main_ip6_handler, main_help_handler, main_quit_handler, main_tcp_handler,
  main_udp_handler, main_key_down_handler, main_key_up_handler, main_key_left_handler,
  main_key_right_handler, main_key_pgdn_handler, main_key_pgup_handler,
}
use sockmon.MainScreen.Delay.{delayed}

module _ {n : Ctx} (v : IsCtx n) where
  at_y : (y : ℤ) → IsNat y → IsCtx (record n { pos_main = record { y = y; x = n.pos_main.x } })
  at_y y h = record {
    main_y = h;
    main_x = v.main_x;
    cursor = v.cursor;
    selected = v.selected;
    sorted = v.sorted;
    page = v.page;
    delay_low = v.delay_low;
    delay_high = v.delay_high;
  }

  at_x : (x : ℤ) → IsNat x → IsCtx (record n { pos_main = record { y = n.pos_main.y; x = x } })
  at_x x h = record {
    main_y = v.main_y;
    main_x = h;
    cursor = v.cursor;
    selected = v.selected;
    sorted = v.sorted;
    page = v.page;
    delay_low = v.delay_low;
    delay_high = v.delay_high;
  }

  pub main_ip_handler-IsCtx : IsCtx (main_ip_handler n)
  unfolding main_ip_handler
  main_ip_handler-IsCtx =
      if-IsCtx _ (set-IsCtx v n.cur_screen af_inet n.protocol n.ext_req n.should_stop) v

  pub main_ip6_handler-IsCtx : IsCtx (main_ip6_handler n)
  unfolding main_ip6_handler
  main_ip6_handler-IsCtx =
      if-IsCtx _ (set-IsCtx v n.cur_screen af_inet6 n.protocol n.ext_req n.should_stop) v

  pub main_tcp_handler-IsCtx : IsCtx (main_tcp_handler n)
  unfolding main_tcp_handler
  main_tcp_handler-IsCtx =
      if-IsCtx _ (set-IsCtx v n.cur_screen n.family ipproto_tcp n.ext_req n.should_stop) v

  pub main_udp_handler-IsCtx : IsCtx (main_udp_handler n)
  unfolding main_udp_handler
  main_udp_handler-IsCtx =
      if-IsCtx _ (set-IsCtx v n.cur_screen n.family ipproto_udp n.ext_req n.should_stop) v

  pub main_help_handler-IsCtx : IsCtx (main_help_handler n)
  unfolding main_help_handler
  main_help_handler-IsCtx = set-IsCtx v screen_help n.family n.protocol n.ext_req n.should_stop

  pub main_quit_handler-IsCtx : IsCtx (main_quit_handler n)
  unfolding main_quit_handler
  main_quit_handler-IsCtx = set-IsCtx v n.cur_screen n.family n.protocol n.ext_req true

  pub main_key_down_handler-IsCtx : IsCtx (main_key_down_handler n)
  unfolding main_key_down_handler
  main_key_down_handler-IsCtx = at_y (n.pos_main.y +ℤ pos 1) (add-IsNat n.pos_main.y 1 v.main_y)

  pub main_key_right_handler-IsCtx : IsCtx (main_key_right_handler n)
  unfolding main_key_right_handler
  main_key_right_handler-IsCtx = at_x (n.pos_main.x +ℤ pos 1) (add-IsNat n.pos_main.x 1 v.main_x)

  pub main_key_up_handler-IsCtx : IsCtx (main_key_up_handler n)
  unfolding main_key_up_handler
  main_key_up_handler-IsCtx = elim (Bool-cases (leb_ℤ n.pos_main.y (pos 0))) [
    | inl e ↦ rw e v
    | inr e ↦ rw e (at_y (n.pos_main.y -ℤ pos 1) (pred-IsNat n.pos_main.y v.main_y e))
  ]

  pub main_key_left_handler-IsCtx : IsCtx (main_key_left_handler n)
  unfolding main_key_left_handler
  main_key_left_handler-IsCtx = elim (Bool-cases (leb_ℤ n.pos_main.x (pos 0))) [
    | inl e ↦ rw e v
    | inr e ↦ rw e (at_x (n.pos_main.x -ℤ pos 1) (pred-IsNat n.pos_main.x v.main_x e))
  ]

  pub main_key_pgdn_handler-IsCtx : IsCtx (main_key_pgdn_handler n)
  unfolding main_key_pgdn_handler
  main_key_pgdn_handler-IsCtx = rw (half_page_lem n.lines v.page) (
      at_y (n.pos_main.y +ℤ pos ((n.lines - 4) / 2))
        (add-IsNat n.pos_main.y ((n.lines - 4) / 2) v.main_y))

  pub main_key_pgup_handler-IsCtx : IsCtx (main_key_pgup_handler n)
  unfolding main_key_pgup_handler
  main_key_pgup_handler-IsCtx = if-IsCtx _ v (
      at_y (let y = n.pos_main.y -ℤ half_page n.lines in if ltb_ℤ y (pos 0) then pos 0 else y)
        (clip-IsNat (n.pos_main.y -ℤ half_page n.lines)))

  -- The delay that is typed is kept in range.
  pub delayed-IsCtx : (o : Option ℕ) → IsCtx (delayed n o)
  unfolding delayed
  delayed-IsCtx none = v
  delayed-IsCtx (some d) = elim (Bool-cases (leb 1 d && leb d 255)) [
    | inl e ↦ rw e (record {
      main_y = v.main_y;
      main_x = v.main_x;
      cursor = v.cursor;
      selected = v.selected;
      sorted = v.sorted;
      page = v.page;
      delay_low = ground (arith, e);
      delay_high = ground (arith, e);
    })
    | inr e ↦ rw e v
  ]
