-- ===== src/Runtime/Tables.antt =====
-- The tables of the built-in modules in runtime/scml_runtime_modules.c. The functions are named;
-- what they do calls the operating system and stays a parameter.
use open_scm.Prelude.{List, [], ◌∷◌}
use open_scm.Prelude.Text.{Text, codes}
use open_scm.Runtime.{FunctionEntry}

-- The functions of the tables.
pub data Builtin : Type 0 where
  rt_gpu_create_context rt_gpu_destroy_context rt_gpu_begin_frame rt_gpu_end_frame : Builtin
  rt_gpu_present rt_gpu_clear_color rt_gpu_noop rt_gpu_create_buffer : Builtin
  rt_gpu_update_buffer rt_gpu_create_texture2d rt_gpu_update_texture2d : Builtin
  rt_gpu_destroy_texture rt_create_handle rt_gpu_draw_triangle rt_gpu_draw_indexed : Builtin
  rt_gpu_draw_mesh rt_window_create rt_capability_info rt_audio_load_sound : Builtin
  rt_audio_play_sound rt_audio_stop_sound rt_audio_set_volume rt_input_poll_events : Builtin
  rt_file_exists rt_file_read_txt rt_file_write_txt rt_file_copy_file : Builtin
  rt_file_list_directory rt_file_delete_file rt_file_create_directory : Builtin
  rt_input_get_mouse_position rt_net_open_socket rt_net_close_socket rt_net_connect : Builtin
  rt_net_send_data rt_net_receive_data rt_net_request rt_input_is_key_down : Builtin
  rt_input_is_key_up rt_input_is_mouse_button_down rt_input_is_mouse_button_up : Builtin
  rt_input_get_mouse_wheel rt_window_destroy rt_window_show rt_window_hide : Builtin
  rt_window_resize rt_window_set_title rt_window_poll_events : Builtin
  rt_window_close_requested rt_console_write rt_console_flush rt_console_clear : Builtin
  rt_console_home rt_console_color rt_console_reset rt_console_move : Builtin
  rt_console_erase_line rt_console_style rt_runtime_sleep_ms rt_runtime_get_time_ms : Builtin
  rt_runtime_get_time_us rt_runtime_get_ticks rt_system_get_platform : Builtin
  rt_system_get_cpu_count rt_system_get_memory_info rt_system_get_working_directory : Builtin
  rt_thread_create rt_thread_join rt_thread_yield : Builtin

abbrev entry : Text → Builtin → FunctionEntry Builtin
entry name fn = record { name = name; fn = fn }

abbrev pub k_gpu : List (FunctionEntry Builtin)
k_gpu =
    entry (codes "create_context") rt_gpu_create_context
    ∷ entry (codes "destroy_context") rt_gpu_destroy_context
    ∷ entry (codes "begin_frame") rt_gpu_begin_frame
    ∷ entry (codes "end_frame") rt_gpu_end_frame
    ∷ entry (codes "present") rt_gpu_present
    ∷ entry (codes "clear_color") rt_gpu_clear_color
    ∷ entry (codes "set_viewport") rt_gpu_noop
    ∷ entry (codes "create_buffer") rt_gpu_create_buffer
    ∷ entry (codes "update_buffer") rt_gpu_update_buffer
    ∷ entry (codes "destroy_buffer") rt_gpu_noop
    ∷ entry (codes "create_texture2d") rt_gpu_create_texture2d
    ∷ entry (codes "update_texture2d") rt_gpu_update_texture2d
    ∷ entry (codes "destroy_texture") rt_gpu_destroy_texture
    ∷ entry (codes "create_shader") rt_create_handle
    ∷ entry (codes "set_shader") rt_gpu_noop
    ∷ entry (codes "set_uniform") rt_gpu_noop
    ∷ entry (codes "draw_triangle") rt_gpu_draw_triangle
    ∷ entry (codes "draw_indexed") rt_gpu_draw_indexed
    ∷ entry (codes "draw_mesh") rt_gpu_draw_mesh
    ∷ entry (codes "create_window") rt_window_create
    ∷ entry (codes "load_texture") rt_create_handle
    ∷ entry (codes "load_image") rt_create_handle
    ∷ entry (codes "upload_image") rt_gpu_noop
    ∷ entry (codes "create_pipeline") rt_create_handle
    ∷ entry (codes "entity_spawn") rt_create_handle
    ∷ entry (codes "backend_info") rt_capability_info
    ∷ []

abbrev pub k_audio : List (FunctionEntry Builtin)
k_audio =
    entry (codes "load_sound") rt_audio_load_sound
    ∷ entry (codes "play_sound") rt_audio_play_sound
    ∷ entry (codes "stop_sound") rt_audio_stop_sound
    ∷ entry (codes "set_volume") rt_audio_set_volume
    ∷ entry (codes "play_music") rt_audio_play_sound
    ∷ entry (codes "pause_music") rt_audio_stop_sound
    ∷ entry (codes "resume_music") rt_audio_play_sound
    ∷ entry (codes "stream_audio") rt_audio_play_sound
    ∷ entry (codes "set_listener") rt_input_poll_events
    ∷ entry (codes "set_3d_position") rt_input_poll_events
    ∷ entry (codes "set_panning") rt_input_poll_events
    ∷ entry (codes "play") rt_audio_play_sound
    ∷ entry (codes "stop") rt_audio_stop_sound
    ∷ entry (codes "backend_info") rt_capability_info
    ∷ []

abbrev pub k_file : List (FunctionEntry Builtin)
k_file =
    entry (codes "exists") rt_file_exists
    ∷ entry (codes "read_txt") rt_file_read_txt
    ∷ entry (codes "write_txt") rt_file_write_txt
    ∷ entry (codes "copy_file") rt_file_copy_file
    ∷ entry (codes "list_directory") rt_file_list_directory
    ∷ entry (codes "delete_file") rt_file_delete_file
    ∷ entry (codes "create_directory") rt_file_create_directory
    ∷ entry (codes "open_file") rt_create_handle
    ∷ entry (codes "read_file") rt_file_read_txt
    ∷ entry (codes "write_file") rt_file_write_txt
    ∷ entry (codes "open") rt_create_handle
    ∷ entry (codes "read") rt_file_read_txt
    ∷ entry (codes "write") rt_file_write_txt
    ∷ entry (codes "backend_info") rt_capability_info
    ∷ []

abbrev pub k_image : List (FunctionEntry Builtin)
k_image =
    entry (codes "load_image") rt_create_handle
    ∷ entry (codes "save_image") rt_file_write_txt
    ∷ entry (codes "decode_png") rt_create_handle
    ∷ entry (codes "decode_jpg") rt_create_handle
    ∷ entry (codes "encode_png") rt_file_write_txt
    ∷ entry (codes "resize_image") rt_input_poll_events
    ∷ entry (codes "blit_image") rt_input_poll_events
    ∷ entry (codes "get_image_info") rt_input_get_mouse_position
    ∷ entry (codes "backend_info") rt_capability_info
    ∷ []

abbrev pub k_net : List (FunctionEntry Builtin)
k_net =
    entry (codes "open_socket") rt_net_open_socket
    ∷ entry (codes "close_socket") rt_net_close_socket
    ∷ entry (codes "connect") rt_net_connect
    ∷ entry (codes "send_data") rt_net_send_data
    ∷ entry (codes "receive_data") rt_net_receive_data
    ∷ entry (codes "request") rt_net_request
    ∷ entry (codes "backend_info") rt_capability_info
    ∷ []

abbrev pub k_input : List (FunctionEntry Builtin)
k_input =
    entry (codes "poll_events") rt_input_poll_events
    ∷ entry (codes "is_key_down") rt_input_is_key_down
    ∷ entry (codes "is_key_up") rt_input_is_key_up
    ∷ entry (codes "get_mouse_position") rt_input_get_mouse_position
    ∷ entry (codes "is_mouse_button_down") rt_input_is_mouse_button_down
    ∷ entry (codes "is_mouse_button_up") rt_input_is_mouse_button_up
    ∷ entry (codes "get_mouse_wheel") rt_input_get_mouse_wheel
    ∷ entry (codes "get_keyboard_state") rt_input_get_mouse_position
    ∷ entry (codes "read") rt_input_poll_events
    ∷ entry (codes "isKeyDown") rt_input_is_key_down
    ∷ entry (codes "backend_info") rt_capability_info
    ∷ []

abbrev pub k_window : List (FunctionEntry Builtin)
k_window =
    entry (codes "create") rt_window_create
    ∷ entry (codes "destroy") rt_window_destroy
    ∷ entry (codes "show") rt_window_show
    ∷ entry (codes "hide") rt_window_hide
    ∷ entry (codes "resize") rt_window_resize
    ∷ entry (codes "set_title") rt_window_set_title
    ∷ entry (codes "poll_events") rt_window_poll_events
    ∷ entry (codes "close_requested") rt_window_close_requested
    ∷ entry (codes "should_close") rt_window_close_requested
    ∷ entry (codes "backend_info") rt_capability_info
    ∷ []

abbrev pub k_console : List (FunctionEntry Builtin)
k_console =
    entry (codes "write") rt_console_write
    ∷ entry (codes "flush") rt_console_flush
    ∷ entry (codes "clear") rt_console_clear
    ∷ entry (codes "home") rt_console_home
    ∷ entry (codes "color") rt_console_color
    ∷ entry (codes "reset") rt_console_reset
    ∷ entry (codes "move") rt_console_move
    ∷ entry (codes "erase_line") rt_console_erase_line
    ∷ entry (codes "style") rt_console_style
    ∷ []

abbrev pub k_runtime : List (FunctionEntry Builtin)
k_runtime =
    entry (codes "wait") rt_runtime_sleep_ms
    ∷ entry (codes "get_time_ms") rt_runtime_get_time_ms
    ∷ entry (codes "get_time_us") rt_runtime_get_time_us
    ∷ entry (codes "get_ticks") rt_runtime_get_ticks
    ∷ []

abbrev pub k_system : List (FunctionEntry Builtin)
k_system =
    entry (codes "get_platform") rt_system_get_platform
    ∷ entry (codes "get_cpu_count") rt_system_get_cpu_count
    ∷ entry (codes "get_memory_info") rt_system_get_memory_info
    ∷ entry (codes "get_working_directory") rt_system_get_working_directory
    ∷ entry (codes "backend_info") rt_capability_info
    ∷ []

abbrev pub k_thread : List (FunctionEntry Builtin)
k_thread =
    entry (codes "create") rt_thread_create
    ∷ entry (codes "join") rt_thread_join
    ∷ entry (codes "sleep") rt_runtime_sleep_ms
    ∷ entry (codes "yield") rt_thread_yield
    ∷ []
