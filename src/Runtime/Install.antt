-- ===== src/Runtime/Install.antt =====
-- `scml_runtime_install_builtin_module_registry`.
use open_scm.Prelude.{ℕ, Bool, true, false, List, [], ◌∷◌}
use open_scm.Prelude.Text.{Text, codes}
use open_scm.Runtime.{FunctionEntry, Backend, Runtime, register_backend, select_backend}
use open_scm.Runtime.Tables.{
  Builtin, k_gpu, k_audio, k_file, k_image, k_net, k_input, k_window, k_console, k_runtime,
  k_system, k_thread,
}

abbrev backend : Text → List (FunctionEntry Builtin) → Backend Builtin
backend name functions = record { name = name; functions = functions; user_data = 0 }

-- The backends in the order in which they are registered, each with its module.
abbrev pub builtin_backends : List (Text × Backend Builtin)
builtin_backends =
    (codes "gpu", backend (codes "default") k_gpu)
    ∷ (codes "gpu", backend (codes "opengl") k_gpu)
    ∷ (codes "gpu", backend (codes "vulkan") k_gpu)
    ∷ (codes "gpu", backend (codes "directx12") k_gpu)
    ∷ (codes "gpu", backend (codes "metal") k_gpu)
    ∷ (codes "gpu", backend (codes "opengles") k_gpu)
    ∷ (codes "audio", backend (codes "default") k_audio)
    ∷ (codes "audio", backend (codes "sdl_audio") k_audio)
    ∷ (codes "audio", backend (codes "openal") k_audio)
    ∷ (codes "audio", backend (codes "wasapi") k_audio)
    ∷ (codes "audio", backend (codes "alsa") k_audio)
    ∷ (codes "file", backend (codes "default") k_file)
    ∷ (codes "image", backend (codes "default") k_image)
    ∷ (codes "image", backend (codes "stb_image") k_image)
    ∷ (codes "net", backend (codes "default") k_net)
    ∷ (codes "input", backend (codes "default") k_input)
    ∷ (codes "console", backend (codes "default") k_console)
    ∷ (codes "runtime", backend (codes "default") k_runtime)
    ∷ (codes "system", backend (codes "default") k_system)
    ∷ (codes "thread", backend (codes "default") k_thread)
    ∷ (codes "window", backend (codes "default") k_window)
    ∷ (codes "window", backend (codes "sdl2") k_window)
    ∷ (codes "window", backend (codes "x11") k_window)
    ∷ (codes "window", backend (codes "win32") k_window)
    ∷ []

abbrev pub builtin_modules : List Text
builtin_modules =
    codes "gpu"
    ∷ codes "audio"
    ∷ codes "file"
    ∷ codes "image"
    ∷ codes "net"
    ∷ codes "input"
    ∷ codes "console"
    ∷ codes "runtime"
    ∷ codes "system"
    ∷ codes "thread"
    ∷ codes "window"
    ∷ []

-- `ok = ok && …`, as long as `ok` holds.
unfoldable pub register_all :
    ℕ → List (Text × Backend Builtin) → Runtime Builtin → Bool × Runtime Builtin
unfolding register_backend
register_all dispatch [] s = (true, s)
register_all dispatch ((name, b) ∷ backends) s =
    elim (register_backend Builtin dispatch s name b).0 [
      | true ↦ register_all dispatch backends (register_backend Builtin dispatch s name b).1
      | false ↦ (false, (register_backend Builtin dispatch s name b).1)
    ]

unfoldable pub select_all : List Text → Runtime Builtin → Bool × Runtime Builtin
unfolding select_backend
select_all [] s = (true, s)
select_all (name ∷ names) s = elim (select_backend Builtin s name (codes "default")).0 [
  | true ↦ select_all names (select_backend Builtin s name (codes "default")).1
  | false ↦ (false, (select_backend Builtin s name (codes "default")).1)
]

unfoldable pub install_builtin_module_registry : ℕ → Runtime Builtin → Bool × Runtime Builtin
unfolding register_all select_all
install_builtin_module_registry dispatch s = elim (register_all dispatch builtin_backends s).0 [
  | true ↦ select_all builtin_modules (register_all dispatch builtin_backends s).1
  | false ↦ (false, (register_all dispatch builtin_backends s).1)
]
