-- ===== src/Cmdline/Words.antt =====
-- The string constants of aosp/libavb/src/avb/c/avb_cmdline.c.
use android_boot_image_edito.Common.{Bytes, [], ◌∷◌}

-- "$(ANDROID_SYSTEM_PARTUUID)"
abbrev pub token_system : Bytes
token_system =
    36 ∷ 40 ∷ 65 ∷ 78 ∷ 68 ∷ 82 ∷ 79 ∷ 73 ∷ 68 ∷ 95 ∷ 83 ∷ 89 ∷ 83 ∷ 84 ∷ 69 ∷ 77 ∷ 95 ∷ 80 ∷ 65
    ∷ 82 ∷ 84 ∷ 85 ∷ 85 ∷ 73 ∷ 68 ∷ 41 ∷ []

-- "$(ANDROID_BOOT_PARTUUID)"
abbrev pub token_boot : Bytes
token_boot =
    36 ∷ 40 ∷ 65 ∷ 78 ∷ 68 ∷ 82 ∷ 79 ∷ 73 ∷ 68 ∷ 95 ∷ 66 ∷ 79 ∷ 79 ∷ 84 ∷ 95 ∷ 80 ∷ 65 ∷ 82 ∷ 84
    ∷ 85 ∷ 85 ∷ 73 ∷ 68 ∷ 41 ∷ []

-- "$(ANDROID_VBMETA_PARTUUID)"
abbrev pub token_vbmeta : Bytes
token_vbmeta =
    36 ∷ 40 ∷ 65 ∷ 78 ∷ 68 ∷ 82 ∷ 79 ∷ 73 ∷ 68 ∷ 95 ∷ 86 ∷ 66 ∷ 77 ∷ 69 ∷ 84 ∷ 65 ∷ 95 ∷ 80 ∷ 65
    ∷ 82 ∷ 84 ∷ 85 ∷ 85 ∷ 73 ∷ 68 ∷ 41 ∷ []

-- "system"
abbrev pub part_system : Bytes
part_system = 115 ∷ 121 ∷ 115 ∷ 116 ∷ 101 ∷ 109 ∷ []

-- "boot"
abbrev pub part_boot : Bytes
part_boot = 98 ∷ 111 ∷ 111 ∷ 116 ∷ []

-- "vbmeta"
abbrev pub part_vbmeta : Bytes
part_vbmeta = 118 ∷ 98 ∷ 109 ∷ 101 ∷ 116 ∷ 97 ∷ []

-- "androidboot.vbmeta.device"
abbrev pub key_device : Bytes
key_device =
    97 ∷ 110 ∷ 100 ∷ 114 ∷ 111 ∷ 105 ∷ 100 ∷ 98 ∷ 111 ∷ 111 ∷ 116 ∷ 46 ∷ 118 ∷ 98 ∷ 109 ∷ 101 ∷ 116
    ∷ 97 ∷ 46 ∷ 100 ∷ 101 ∷ 118 ∷ 105 ∷ 99 ∷ 101 ∷ []

-- "PARTUUID=$(ANDROID_VBMETA_PARTUUID)"
abbrev pub partuuid : Bytes
partuuid =
    80 ∷ 65 ∷ 82 ∷ 84 ∷ 85 ∷ 85 ∷ 73 ∷ 68 ∷ 61 ∷ 36 ∷ 40 ∷ 65 ∷ 78 ∷ 68 ∷ 82 ∷ 79 ∷ 73 ∷ 68 ∷ 95
    ∷ 86 ∷ 66 ∷ 77 ∷ 69 ∷ 84 ∷ 65 ∷ 95 ∷ 80 ∷ 65 ∷ 82 ∷ 84 ∷ 85 ∷ 85 ∷ 73 ∷ 68 ∷ 41 ∷ []

-- "androidboot.vbmeta.avb_version"
abbrev pub key_avb_version : Bytes
key_avb_version =
    97 ∷ 110 ∷ 100 ∷ 114 ∷ 111 ∷ 105 ∷ 100 ∷ 98 ∷ 111 ∷ 111 ∷ 116 ∷ 46 ∷ 118 ∷ 98 ∷ 109 ∷ 101 ∷ 116
    ∷ 97 ∷ 46 ∷ 97 ∷ 118 ∷ 98 ∷ 95 ∷ 118 ∷ 101 ∷ 114 ∷ 115 ∷ 105 ∷ 111 ∷ 110 ∷ []

-- "androidboot.vbmeta.device_state"
abbrev pub key_device_state : Bytes
key_device_state =
    97 ∷ 110 ∷ 100 ∷ 114 ∷ 111 ∷ 105 ∷ 100 ∷ 98 ∷ 111 ∷ 111 ∷ 116 ∷ 46 ∷ 118 ∷ 98 ∷ 109 ∷ 101 ∷ 116
    ∷ 97 ∷ 46 ∷ 100 ∷ 101 ∷ 118 ∷ 105 ∷ 99 ∷ 101 ∷ 95 ∷ 115 ∷ 116 ∷ 97 ∷ 116 ∷ 101 ∷ []

-- "unlocked"
abbrev pub text_unlocked : Bytes
text_unlocked = 117 ∷ 110 ∷ 108 ∷ 111 ∷ 99 ∷ 107 ∷ 101 ∷ 100 ∷ []

-- "locked"
abbrev pub text_locked : Bytes
text_locked = 108 ∷ 111 ∷ 99 ∷ 107 ∷ 101 ∷ 100 ∷ []

-- "androidboot.vbmeta.hash_alg"
abbrev pub key_hash_alg : Bytes
key_hash_alg =
    97 ∷ 110 ∷ 100 ∷ 114 ∷ 111 ∷ 105 ∷ 100 ∷ 98 ∷ 111 ∷ 111 ∷ 116 ∷ 46 ∷ 118 ∷ 98 ∷ 109 ∷ 101 ∷ 116
    ∷ 97 ∷ 46 ∷ 104 ∷ 97 ∷ 115 ∷ 104 ∷ 95 ∷ 97 ∷ 108 ∷ 103 ∷ []

-- "sha256"
abbrev pub text_sha256 : Bytes
text_sha256 = 115 ∷ 104 ∷ 97 ∷ 50 ∷ 53 ∷ 54 ∷ []

-- "sha512"
abbrev pub text_sha512 : Bytes
text_sha512 = 115 ∷ 104 ∷ 97 ∷ 53 ∷ 49 ∷ 50 ∷ []

-- "androidboot.vbmeta.size"
abbrev pub key_size : Bytes
key_size =
    97 ∷ 110 ∷ 100 ∷ 114 ∷ 111 ∷ 105 ∷ 100 ∷ 98 ∷ 111 ∷ 111 ∷ 116 ∷ 46 ∷ 118 ∷ 98 ∷ 109 ∷ 101 ∷ 116
    ∷ 97 ∷ 46 ∷ 115 ∷ 105 ∷ 122 ∷ 101 ∷ []

-- "androidboot.vbmeta.digest"
abbrev pub key_digest : Bytes
key_digest =
    97 ∷ 110 ∷ 100 ∷ 114 ∷ 111 ∷ 105 ∷ 100 ∷ 98 ∷ 111 ∷ 111 ∷ 116 ∷ 46 ∷ 118 ∷ 98 ∷ 109 ∷ 101 ∷ 116
    ∷ 97 ∷ 46 ∷ 100 ∷ 105 ∷ 103 ∷ 101 ∷ 115 ∷ 116 ∷ []

-- "disabled"
abbrev pub text_disabled : Bytes
text_disabled = 100 ∷ 105 ∷ 115 ∷ 97 ∷ 98 ∷ 108 ∷ 101 ∷ 100 ∷ []

-- "androidboot.vbmeta.invalidate_on_error"
abbrev pub key_invalidate : Bytes
key_invalidate =
    97 ∷ 110 ∷ 100 ∷ 114 ∷ 111 ∷ 105 ∷ 100 ∷ 98 ∷ 111 ∷ 111 ∷ 116 ∷ 46 ∷ 118 ∷ 98 ∷ 109 ∷ 101 ∷ 116
    ∷ 97 ∷ 46 ∷ 105 ∷ 110 ∷ 118 ∷ 97 ∷ 108 ∷ 105 ∷ 100 ∷ 97 ∷ 116 ∷ 101 ∷ 95 ∷ 111 ∷ 110 ∷ 95 ∷ 101
    ∷ 114 ∷ 114 ∷ 111 ∷ 114 ∷ []

-- "yes"
abbrev pub text_yes : Bytes
text_yes = 121 ∷ 101 ∷ 115 ∷ []

-- "enforcing"
abbrev pub text_enforcing : Bytes
text_enforcing = 101 ∷ 110 ∷ 102 ∷ 111 ∷ 114 ∷ 99 ∷ 105 ∷ 110 ∷ 103 ∷ []

-- "restart_on_corruption"
abbrev pub text_restart : Bytes
text_restart =
    114 ∷ 101 ∷ 115 ∷ 116 ∷ 97 ∷ 114 ∷ 116 ∷ 95 ∷ 111 ∷ 110 ∷ 95 ∷ 99 ∷ 111 ∷ 114 ∷ 114 ∷ 117 ∷ 112
    ∷ 116 ∷ 105 ∷ 111 ∷ 110 ∷ []

-- "eio"
abbrev pub text_eio : Bytes
text_eio = 101 ∷ 105 ∷ 111 ∷ []

-- "ignore_zero_blocks"
abbrev pub text_ignore_zero : Bytes
text_ignore_zero =
    105 ∷ 103 ∷ 110 ∷ 111 ∷ 114 ∷ 101 ∷ 95 ∷ 122 ∷ 101 ∷ 114 ∷ 111 ∷ 95 ∷ 98 ∷ 108 ∷ 111 ∷ 99 ∷ 107
    ∷ 115 ∷ []

-- "logging"
abbrev pub text_logging : Bytes
text_logging = 108 ∷ 111 ∷ 103 ∷ 103 ∷ 105 ∷ 110 ∷ 103 ∷ []

-- "ignore_corruption"
abbrev pub text_ignore : Bytes
text_ignore =
    105 ∷ 103 ∷ 110 ∷ 111 ∷ 114 ∷ 101 ∷ 95 ∷ 99 ∷ 111 ∷ 114 ∷ 114 ∷ 117 ∷ 112 ∷ 116 ∷ 105 ∷ 111
    ∷ 110 ∷ []

-- "$(ANDROID_VERITY_MODE)"
abbrev pub token_verity : Bytes
token_verity =
    36 ∷ 40 ∷ 65 ∷ 78 ∷ 68 ∷ 82 ∷ 79 ∷ 73 ∷ 68 ∷ 95 ∷ 86 ∷ 69 ∷ 82 ∷ 73 ∷ 84 ∷ 89 ∷ 95 ∷ 77 ∷ 79
    ∷ 68 ∷ 69 ∷ 41 ∷ []

-- "androidboot.veritymode"
abbrev pub key_veritymode : Bytes
key_veritymode =
    97 ∷ 110 ∷ 100 ∷ 114 ∷ 111 ∷ 105 ∷ 100 ∷ 98 ∷ 111 ∷ 111 ∷ 116 ∷ 46 ∷ 118 ∷ 101 ∷ 114 ∷ 105 ∷ 116
    ∷ 121 ∷ 109 ∷ 111 ∷ 100 ∷ 101 ∷ []

-- "androidboot.veritymode.managed"
abbrev pub key_managed : Bytes
key_managed =
    97 ∷ 110 ∷ 100 ∷ 114 ∷ 111 ∷ 105 ∷ 100 ∷ 98 ∷ 111 ∷ 111 ∷ 116 ∷ 46 ∷ 118 ∷ 101 ∷ 114 ∷ 105 ∷ 116
    ∷ 121 ∷ 109 ∷ 111 ∷ 100 ∷ 101 ∷ 46 ∷ 109 ∷ 97 ∷ 110 ∷ 97 ∷ 103 ∷ 101 ∷ 100 ∷ []

-- "$(AVB_"
abbrev pub digest_prefix : Bytes
digest_prefix = 36 ∷ 40 ∷ 65 ∷ 86 ∷ 66 ∷ 95 ∷ []

-- "_ROOT_DIGEST)"
abbrev pub digest_suffix : Bytes
digest_suffix = 95 ∷ 82 ∷ 79 ∷ 79 ∷ 84 ∷ 95 ∷ 68 ∷ 73 ∷ 71 ∷ 69 ∷ 83 ∷ 84 ∷ 41 ∷ []
