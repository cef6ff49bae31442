-- ===== src/Rtc/Init.antt =====
-- rtc_init of x86/common/rtc.c on a machine that has been set up.
