-- ===== src/Gpu/Enum/Texture.antt =====
-- gpu/enum.spec.hpp: the enumerations of a texture's format.
use xpute.Common.{ℕ, ◌≡◌, refl, arith, some, List, [], ◌∷◌, get_elem?}
use xpute.Gpu.Enum.{Coded}

pub data TextureFormat : Type 0 where
  r8unorm r8snorm r8uint r8sint r16uint r16sint r16float rg8unorm rg8snorm rg8uint : TextureFormat
  rg8sint r32uint r32sint r32float rg16uint rg16sint rg16float rgba8unorm : TextureFormat
  rgba8unorm_srgb rgba8snorm rgba8uint rgba8sint bgra8unorm bgra8unorm_srgb : TextureFormat
  rgb9e5ufloat rgb10a2uint rgb10a2unorm rg11b10ufloat rg32uint rg32sint rg32float : TextureFormat
  rgba16uint rgba16sint rgba16float rgba32uint rgba32sint rgba32float stencil8 : TextureFormat
  depth16unorm depth24plus depth24plus_stencil8 depth32float depth32float_stencil8 : TextureFormat
  bc1_rgba_unorm bc1_rgba_unorm_srgb bc2_rgba_unorm bc2_rgba_unorm_srgb bc3_rgba_unorm :
      TextureFormat
  bc3_rgba_unorm_srgb bc4_r_unorm bc4_r_snorm bc5_rg_unorm bc5_rg_snorm bc6h_rgb_ufloat :
      TextureFormat
  bc6h_rgb_float bc7_rgba_unorm bc7_rgba_unorm_srgb etc2_rgb8unorm etc2_rgb8unorm_srgb :
      TextureFormat
  etc2_rgb8a1unorm etc2_rgb8a1unorm_srgb etc2_rgba8unorm etc2_rgba8unorm_srgb : TextureFormat
  eac_r11unorm eac_r11snorm eac_rg11unorm eac_rg11snorm astc_4x4_unorm : TextureFormat
  astc_4x4_unorm_srgb astc_5x4_unorm astc_5x4_unorm_srgb astc_5x5_unorm : TextureFormat
  astc_5x5_unorm_srgb astc_6x5_unorm astc_6x5_unorm_srgb astc_6x6_unorm : TextureFormat
  astc_6x6_unorm_srgb astc_8x5_unorm astc_8x5_unorm_srgb astc_8x6_unorm : TextureFormat
  astc_8x6_unorm_srgb astc_8x8_unorm astc_8x8_unorm_srgb astc_10x5_unorm : TextureFormat
  astc_10x5_unorm_srgb astc_10x6_unorm astc_10x6_unorm_srgb astc_10x8_unorm : TextureFormat
  astc_10x8_unorm_srgb astc_10x10_unorm astc_10x10_unorm_srgb astc_12x10_unorm : TextureFormat
  astc_12x10_unorm_srgb astc_12x12_unorm astc_12x12_unorm_srgb : TextureFormat

pub texture_format : TextureFormat → ℕ
texture_format TextureFormat.r8unorm = 0
texture_format TextureFormat.r8snorm = 1
texture_format TextureFormat.r8uint = 2
texture_format TextureFormat.r8sint = 3
texture_format TextureFormat.r16uint = 4
texture_format TextureFormat.r16sint = 5
texture_format TextureFormat.r16float = 6
texture_format TextureFormat.rg8unorm = 7
texture_format TextureFormat.rg8snorm = 8
texture_format TextureFormat.rg8uint = 9
texture_format TextureFormat.rg8sint = 10
texture_format TextureFormat.r32uint = 11
texture_format TextureFormat.r32sint = 12
texture_format TextureFormat.r32float = 13
texture_format TextureFormat.rg16uint = 14
texture_format TextureFormat.rg16sint = 15
texture_format TextureFormat.rg16float = 16
texture_format TextureFormat.rgba8unorm = 17
texture_format TextureFormat.rgba8unorm_srgb = 18
texture_format TextureFormat.rgba8snorm = 19
texture_format TextureFormat.rgba8uint = 20
texture_format TextureFormat.rgba8sint = 21
texture_format TextureFormat.bgra8unorm = 22
texture_format TextureFormat.bgra8unorm_srgb = 23
texture_format TextureFormat.rgb9e5ufloat = 24
texture_format TextureFormat.rgb10a2uint = 25
texture_format TextureFormat.rgb10a2unorm = 26
texture_format TextureFormat.rg11b10ufloat = 27
texture_format TextureFormat.rg32uint = 28
texture_format TextureFormat.rg32sint = 29
texture_format TextureFormat.rg32float = 30
texture_format TextureFormat.rgba16uint = 31
texture_format TextureFormat.rgba16sint = 32
texture_format TextureFormat.rgba16float = 33
texture_format TextureFormat.rgba32uint = 34
texture_format TextureFormat.rgba32sint = 35
texture_format TextureFormat.rgba32float = 36
texture_format TextureFormat.stencil8 = 37
texture_format TextureFormat.depth16unorm = 38
texture_format TextureFormat.depth24plus = 39
texture_format TextureFormat.depth24plus_stencil8 = 40
texture_format TextureFormat.depth32float = 41
texture_format TextureFormat.depth32float_stencil8 = 42
texture_format TextureFormat.bc1_rgba_unorm = 43
texture_format TextureFormat.bc1_rgba_unorm_srgb = 44
texture_format TextureFormat.bc2_rgba_unorm = 45
texture_format TextureFormat.bc2_rgba_unorm_srgb = 46
texture_format TextureFormat.bc3_rgba_unorm = 47
texture_format TextureFormat.bc3_rgba_unorm_srgb = 48
texture_format TextureFormat.bc4_r_unorm = 49
texture_format TextureFormat.bc4_r_snorm = 50
texture_format TextureFormat.bc5_rg_unorm = 51
texture_format TextureFormat.bc5_rg_snorm = 52
texture_format TextureFormat.bc6h_rgb_ufloat = 53
texture_format TextureFormat.bc6h_rgb_float = 54
texture_format TextureFormat.bc7_rgba_unorm = 55
texture_format TextureFormat.bc7_rgba_unorm_srgb = 56
texture_format TextureFormat.etc2_rgb8unorm = 57
texture_format TextureFormat.etc2_rgb8unorm_srgb = 58
texture_format TextureFormat.etc2_rgb8a1unorm = 59
texture_format TextureFormat.etc2_rgb8a1unorm_srgb = 60
texture_format TextureFormat.etc2_rgba8unorm = 61
texture_format TextureFormat.etc2_rgba8unorm_srgb = 62
texture_format TextureFormat.eac_r11unorm = 63
texture_format TextureFormat.eac_r11snorm = 64
texture_format TextureFormat.eac_rg11unorm = 65
texture_format TextureFormat.eac_rg11snorm = 66
texture_format TextureFormat.astc_4x4_unorm = 67
texture_format TextureFormat.astc_4x4_unorm_srgb = 68
texture_format TextureFormat.astc_5x4_unorm = 69
texture_format TextureFormat.astc_5x4_unorm_srgb = 70
texture_format TextureFormat.astc_5x5_unorm = 71
texture_format TextureFormat.astc_5x5_unorm_srgb = 72
texture_format TextureFormat.astc_6x5_unorm = 73
texture_format TextureFormat.astc_6x5_unorm_srgb = 74
texture_format TextureFormat.astc_6x6_unorm = 75
texture_format TextureFormat.astc_6x6_unorm_srgb = 76
texture_format TextureFormat.astc_8x5_unorm = 77
texture_format TextureFormat.astc_8x5_unorm_srgb = 78
texture_format TextureFormat.astc_8x6_unorm = 79
texture_format TextureFormat.astc_8x6_unorm_srgb = 80
texture_format TextureFormat.astc_8x8_unorm = 81
texture_format TextureFormat.astc_8x8_unorm_srgb = 82
texture_format TextureFormat.astc_10x5_unorm = 83
texture_format TextureFormat.astc_10x5_unorm_srgb = 84
texture_format TextureFormat.astc_10x6_unorm = 85
texture_format TextureFormat.astc_10x6_unorm_srgb = 86
texture_format TextureFormat.astc_10x8_unorm = 87
texture_format TextureFormat.astc_10x8_unorm_srgb = 88
texture_format TextureFormat.astc_10x10_unorm = 89
texture_format TextureFormat.astc_10x10_unorm_srgb = 90
texture_format TextureFormat.astc_12x10_unorm = 91
texture_format TextureFormat.astc_12x10_unorm_srgb = 92
texture_format TextureFormat.astc_12x12_unorm = 93
texture_format TextureFormat.astc_12x12_unorm_srgb = 94

abbrev pub texture_formats : List TextureFormat
texture_formats =
    TextureFormat.r8unorm ∷ TextureFormat.r8snorm ∷ TextureFormat.r8uint ∷ TextureFormat.r8sint
    ∷ TextureFormat.r16uint ∷ TextureFormat.r16sint ∷ TextureFormat.r16float
    ∷ TextureFormat.rg8unorm ∷ TextureFormat.rg8snorm ∷ TextureFormat.rg8uint
    ∷ TextureFormat.rg8sint ∷ TextureFormat.r32uint ∷ TextureFormat.r32sint ∷ TextureFormat.r32float
    ∷ TextureFormat.rg16uint ∷ TextureFormat.rg16sint ∷ TextureFormat.rg16float
    ∷ TextureFormat.rgba8unorm ∷ TextureFormat.rgba8unorm_srgb ∷ TextureFormat.rgba8snorm
    ∷ TextureFormat.rgba8uint ∷ TextureFormat.rgba8sint ∷ TextureFormat.bgra8unorm
    ∷ TextureFormat.bgra8unorm_srgb ∷ TextureFormat.rgb9e5ufloat ∷ TextureFormat.rgb10a2uint
    ∷ TextureFormat.rgb10a2unorm ∷ TextureFormat.rg11b10ufloat ∷ TextureFormat.rg32uint
    ∷ TextureFormat.rg32sint ∷ TextureFormat.rg32float ∷ TextureFormat.rgba16uint
    ∷ TextureFormat.rgba16sint ∷ TextureFormat.rgba16float ∷ TextureFormat.rgba32uint
    ∷ TextureFormat.rgba32sint ∷ TextureFormat.rgba32float ∷ TextureFormat.stencil8
    ∷ TextureFormat.depth16unorm ∷ TextureFormat.depth24plus ∷ TextureFormat.depth24plus_stencil8
    ∷ TextureFormat.depth32float ∷ TextureFormat.depth32float_stencil8
    ∷ TextureFormat.bc1_rgba_unorm ∷ TextureFormat.bc1_rgba_unorm_srgb
    ∷ TextureFormat.bc2_rgba_unorm ∷ TextureFormat.bc2_rgba_unorm_srgb
    ∷ TextureFormat.bc3_rgba_unorm ∷ TextureFormat.bc3_rgba_unorm_srgb ∷ TextureFormat.bc4_r_unorm
    ∷ TextureFormat.bc4_r_snorm ∷ TextureFormat.bc5_rg_unorm ∷ TextureFormat.bc5_rg_snorm
    ∷ TextureFormat.bc6h_rgb_ufloat ∷ TextureFormat.bc6h_rgb_float ∷ TextureFormat.bc7_rgba_unorm
    ∷ TextureFormat.bc7_rgba_unorm_srgb ∷ TextureFormat.etc2_rgb8unorm
    ∷ TextureFormat.etc2_rgb8unorm_srgb ∷ TextureFormat.etc2_rgb8a1unorm
    ∷ TextureFormat.etc2_rgb8a1unorm_srgb ∷ TextureFormat.etc2_rgba8unorm
    ∷ TextureFormat.etc2_rgba8unorm_srgb ∷ TextureFormat.eac_r11unorm ∷ TextureFormat.eac_r11snorm
    ∷ TextureFormat.eac_rg11unorm ∷ TextureFormat.eac_rg11snorm ∷ TextureFormat.astc_4x4_unorm
    ∷ TextureFormat.astc_4x4_unorm_srgb ∷ TextureFormat.astc_5x4_unorm
    ∷ TextureFormat.astc_5x4_unorm_srgb ∷ TextureFormat.astc_5x5_unorm
    ∷ TextureFormat.astc_5x5_unorm_srgb ∷ TextureFormat.astc_6x5_unorm
    ∷ TextureFormat.astc_6x5_unorm_srgb ∷ TextureFormat.astc_6x6_unorm
    ∷ TextureFormat.astc_6x6_unorm_srgb ∷ TextureFormat.astc_8x5_unorm
    ∷ TextureFormat.astc_8x5_unorm_srgb ∷ TextureFormat.astc_8x6_unorm
    ∷ TextureFormat.astc_8x6_unorm_srgb ∷ TextureFormat.astc_8x8_unorm
    ∷ TextureFormat.astc_8x8_unorm_srgb ∷ TextureFormat.astc_10x5_unorm
    ∷ TextureFormat.astc_10x5_unorm_srgb ∷ TextureFormat.astc_10x6_unorm
    ∷ TextureFormat.astc_10x6_unorm_srgb ∷ TextureFormat.astc_10x8_unorm
    ∷ TextureFormat.astc_10x8_unorm_srgb ∷ TextureFormat.astc_10x10_unorm
    ∷ TextureFormat.astc_10x10_unorm_srgb ∷ TextureFormat.astc_12x10_unorm
    ∷ TextureFormat.astc_12x10_unorm_srgb ∷ TextureFormat.astc_12x12_unorm
    ∷ TextureFormat.astc_12x12_unorm_srgb ∷ []

pub texture_format-place :
    (a : TextureFormat) → get_elem? texture_formats (texture_format a) ≡ some a
unfolding texture_format
texture_format-place TextureFormat.r8unorm = refl
texture_format-place _ = refl

instance abbrev pub texture_format_coded : Coded TextureFormat
texture_format_coded = record {
  code = texture_format;
  members = texture_formats;
  place = texture_format-place;
  few = omega arith;
}
