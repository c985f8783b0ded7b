-- ===== src/Camera/Tests.antt =====
-- internal/camera/encode.go: runs on concrete captions and stills.
use bambu_timelapse.Prelude.{ℤ, pos, ◌≡◌, refl, true, false, none, some, [], ◌∷◌}
use bambu_timelapse.Go.Text.{text, join}
use bambu_timelapse.Go.Number.{itoa}
use bambu_timelapse.Go.Utf8.{runes}
use bambu_timelapse.Go.Float.{whole}
use bambu_timelapse.Camera.{
  Still, EncodeOptions, overlay_text, trim_left, trim_right, encode_runes, rune_mem, write_commands,
  commands_from,
}
use bambu_timelapse.Camera.Plain.{AllPlain, overlay_text-AllPlain}
use bambu_timelapse.Camera.Encode.{build_graph}

overlay_text-AllPlain_example : AllPlain (overlay_text (text " a'b:c; [d] "))
overlay_text-AllPlain_example = overlay_text-AllPlain (text " a'b:c; [d] ")

quotes_go : overlay_text (text " it's: é[1]\n") ≡ text "it s  é 1"
unfolding overlay_text trim_left trim_right encode_runes rune_mem runes
quotes_go = refl

abbrev render : Still
render = record { path = text "plate.png"; hold = 2000000000 }

abbrev shot : Still
shot = record { path = text "cover.jpg"; hold = 2000000000 }

abbrev both_ends : EncodeOptions
both_ends = record {
  fps = 30;
  crop = text "1920:820:0:260";
  intro = render;
  outro = shot;
  tail_hold = 2000000000;
  overlay = none;
}

footage_alone :
    build_graph ℤ true (text "overlay.cmds") both_ends false (pos 0) (pos 0)
    ≡ some (text "[0:v]crop=1920:820:0:260,format=yuv420p,setsar=1[main]", text "[main]")
unfolding build_graph join
footage_alone = refl

one_command :
    write_commands ℤ (text "Layer 1/9" ∷ []) 1 ≡ text "0 drawtext@counter text 'Layer 1/9';\n"
unfolding write_commands commands_from overlay_text trim_left trim_right encode_runes rune_mem runes
    whole itoa
one_command = refl
